-- ===== src/Chat/Request/Fields.antt =====
-- src/chat.rs: taking the fields of a request apart. What is taken is removed from the object, and
-- what remains at the end is not supported.
use codex_api.Common.{
  ℕ, Bool, false, Option, none, some, [], ◌∷◌, String, str_eq, ◌⧺◌, Result, ok, err, ◌>>=◌, ◌>>◌,
  ensure, ok_or, and_then, unwrap_or, ◌||◌, nat_eq, ltb, if◌then◌else◌,
}
use codex_api.Json.{Json, object}
use codex_api.Json.Access.{as_object, as_str, as_bool, as_u64, is_null, json_object, json_string}
use codex_api.Chat.Upstream.{ChatError, invalid_error}

module _ ⦃J : Json⦄ where
  open J use {Value, Fields, make, get, insert, remove, entries}

  unfoldable pub into_request_object : Value → String → Result ChatError Fields
  into_request_object value param =
      ok_or (as_object value) (invalid_error param (param ⧺ " must be a JSON object"))

  unfoldable pub take_request_string : Fields → String → String → Result ChatError (String × Fields)
  take_request_string fields field param = do
    value ←
        ok_or (and_then (get fields field) as_str)
          (invalid_error param (param ⧺ " must be a string"))
    ok (value, remove fields field)

  unfoldable pub take_required : Fields → String → String → Result ChatError (Value × Fields)
  take_required fields field param = do
    value ← ok_or (get fields field) (invalid_error param (param ⧺ " is required"))
    ok (value, remove fields field)

  unfoldable pub request_bool : Value → String → Result ChatError Bool
  request_bool value param =
      ok_or (as_bool value) (invalid_error param (param ⧺ " must be a boolean"))

  abbrev pub field_param : String → String → String
  field_param context field = if str_eq context "request" then field else context ⧺ "." ⧺ field

  unfoldable pub reject_unknown_request_fields : Fields → String → Result ChatError (Unit {0})
  reject_unknown_request_fields fields context = elim (entries fields) [
    | [] ↦ ok tt
    | (field, _) ∷ _ ↦ err (
        invalid_error (field_param context field)
          ("unsupported field " ⧺ field_param context field))
  ]

  -- `option.map(f).transpose()`
  abbrev pub convert_option :
      {A : Type 0} → (Value → Result ChatError A) → Option Value → Result ChatError (Option A)
  convert_option f none = ok none
  convert_option f (some value) = do converted ← f value; ok (some converted)

  abbrev pub flag_or_false : Option Bool → Bool
  flag_or_false found = unwrap_or found false

  unfoldable pub convert_stream : Option Value → Result ChatError Bool
  convert_stream none = ok false
  convert_stream (some value) =
      if is_null value
      then ok false
      else ok_or (as_bool value) (invalid_error "stream" "stream must be a boolean or null")

  unfoldable pub convert_stream_options : Bool → Value → Result ChatError Bool
  convert_stream_options stream value = do
    ensure stream (invalid_error "stream_options" "stream_options requires stream to be true")
    options ← into_request_object value "stream_options"
    include_usage ←
        convert_option (λ v. request_bool v "stream_options.include_usage")
          (get options "include_usage")
    reject_unknown_request_fields (remove options "include_usage") "stream_options"
    ok (flag_or_false include_usage)

  abbrev pub is_one : Option ℕ → Bool
  is_one none = false
  is_one (some n) = nat_eq n 1

  unfoldable pub validate_n : Option Value → Result ChatError (Unit {0})
  validate_n none = ok tt
  validate_n (some value) =
      ensure (is_null value || is_one (as_u64 value)) (invalid_error "n" "n must be one or null")

  abbrev pub is_positive : Option ℕ → Bool
  is_positive none = false
  is_positive (some limit) = ltb 0 limit

  unfoldable pub validate_ignored_completion_limit :
      String → Option Value → Result ChatError (Unit {0})
  validate_ignored_completion_limit field none = ok tt
  validate_ignored_completion_limit field (some value) =
      ensure (is_null value || is_positive (as_u64 value))
        (invalid_error field (field ⧺ " must be a positive integer or null"))

  unfoldable pub is_effort : String → Bool
  is_effort effort =
      str_eq effort "none"
      || str_eq effort "minimal"
      || str_eq effort "low"
      || str_eq effort "medium"
      || str_eq effort "high"
      || str_eq effort "xhigh"
      || str_eq effort "max"
      || str_eq effort "ultra"

  unfoldable pub convert_reasoning_effort : Option Value → Result ChatError (Option String)
  convert_reasoning_effort none = ok none
  convert_reasoning_effort (some value) = if is_null value then ok none else (do
    effort ←
        ok_or (as_str value)
          (invalid_error "reasoning_effort" "reasoning_effort must be a string or null")
    ensure (is_effort effort) (invalid_error "reasoning_effort" "unsupported reasoning_effort")
    ok (some effort))

  -- The format of a `response_format` with its type taken out.
  unfoldable pub convert_format : String → Fields → Result ChatError Value
  convert_format format_type rest =
      if str_eq format_type "text" || str_eq format_type "json_object"
      then (do
        reject_unknown_request_fields rest "response_format"
        ok (json_object (("type", json_string format_type) ∷ [])))
      else if str_eq format_type "json_schema"
      then (do
        (schema, others) ← take_required rest "json_schema" "response_format.json_schema"
        reject_unknown_request_fields others "response_format"
        fields ← into_request_object schema "response_format.json_schema"
        ok (make (object (insert fields "type" (json_string "json_schema")))))
      else err (invalid_error "response_format.type" "unsupported response_format.type")

  unfoldable pub convert_response_format : Option Value → Result ChatError (Option Value)
  convert_response_format none = ok none
  convert_response_format (some value) = if is_null value then ok none else (do
    response_format ← into_request_object value "response_format"
    (format_type, rest) ← take_request_string response_format "type" "response_format.type"
    format ← convert_format format_type rest
    ok (some (json_object (("format", format) ∷ []))))
