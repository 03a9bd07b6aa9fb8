-- ===== src/Http/Normalize.antt =====
-- src/http_api.rs: `normalize_responses_request`.
use codex_api.Common.{
  not, true, false, Option, none, some, is_some, [], ◌∷◌, String, ◌⧺◌, Result, ok, err, ◌>>=◌, ◌>>◌,
  ensure, ok_or,
}
use codex_api.Json.{Json, View, null, bool, string, array, object}
use codex_api.Json.Access.{as_object, json_object, json_string}
use codex_api.Errors.Api.{ApiError, invalid}

module _ ⦃J : Json⦄ where
  open J use {Value, Fields, Number, view, make, get, insert}

  unfoldable pub require_stream : Option Value → Result ApiError (Unit {0})
  require_stream none = err (invalid "stream" "stream must be explicitly true")
  require_stream (some value) = elim (view value) [
    | bool true ↦ ok tt
    | _ ↦ err (invalid "stream" "stream must be explicitly true")
  ]

  -- The `match` on `store` and the one on `background`.
  unfoldable pub refuse_flag : String → String → Option Value → Result ApiError (Unit {0})
  refuse_flag field unsupported none = ok tt
  refuse_flag field unsupported (some value) = elim (view value) [
    | null ↦ ok tt
    | bool false ↦ ok tt
    | bool true ↦ err (invalid field unsupported)
    | _ ↦ err (invalid field (field ⧺ " must be a boolean or null"))
  ]

  unfoldable pub input_message : String → Value
  input_message input = make (
      array (
        json_object (
          ("type", json_string "message")
          ∷ ("role", json_string "user")
          ∷ (
            "content",
            make (
                array (
                  json_object
                    (("type", json_string "input_text") ∷ ("text", json_string input) ∷ [])
                  ∷ [])),
          )
          ∷ [])
        ∷ []))

  abbrev pub wrap_view : View Value Fields Number → Fields → Fields
  wrap_view (string input) request = insert request "input" (input_message input)
  wrap_view _ request = request

  unfoldable pub wrap_input : Option Value → Fields → Fields
  wrap_input none request = request
  wrap_input (some value) request = wrap_view (view value) request

  unfoldable pub normalize_responses_request : Value → Result ApiError Value
  normalize_responses_request value = do
    request ← ok_or (as_object value) (invalid "request" "request must be a JSON object")
    require_stream (get request "stream")
    refuse_flag "store" "stored responses are not supported" (get request "store")
    refuse_flag "background" "background responses are not supported" (get request "background")
    ensure (not (is_some (get request "max_output_tokens"))) (
        invalid "max_output_tokens"
          "max_output_tokens is not supported by the ChatGPT Codex upstream")
    ok (
        make
          (object (insert (wrap_input (get request "input") request) "store" (make (bool false)))))
