-- ===== src/Upstream/Lite.antt =====
-- src/upstream_ws.rs: the request and the warmup of the Responses Lite protocol.
use codex_api.Common.{
  not, ◌&&◌, Bool, true, false, Option, none, some, is_none, is_empty, any, List, [], ◌∷◌, map,
  String, str_eq, Result, ok, ◌>>=◌, ok_or, and_then, filter_option, unwrap_or, if◌then◌else◌, ℕ,
}
use codex_api.Json.{Json, bool, array, object}
use codex_api.Json.Access.{as_object, as_array, as_str, get_field, index, json_object, json_string}

-- The errors; those of the crates are left out.
pub data UpstreamWebSocketError : Type 0 where
  credentials credential_refresh authentication_rejected request_error transport :
      UpstreamWebSocketError
  handshake : ℕ → UpstreamWebSocketError

abbrev pub is_text : String → Option String → Bool
is_text expected none = false
is_text expected (some found) = str_eq found expected

module _ ⦃J : Json⦄ where
  open J use {Value, Fields, make, get, insert, remove, empty, view}

  -- `entry(key).or_insert_with(...)`
  abbrev pub or_insert : String → Value → Fields → Fields
  or_insert key value fields = elim (get fields key) [
    | none ↦ insert fields key value
    | some _ ↦ fields
  ]

  -- What is done to the value of a key, if that is an object.
  abbrev pub change_object : String → (Fields → Fields) → Fields → Fields
  change_object key change fields = elim (and_then (get fields key) as_object) [
    | none ↦ fields
    | some o ↦ insert fields key (make (object (change o)))
  ]

  unfoldable pub developer_message : String → Value
  developer_message text = json_object (
      ("type", json_string "message")
      ∷ ("role", json_string "developer")
      ∷ (
        "content",
        make (
            array (
              json_object (("type", json_string "input_text") ∷ ("text", json_string text) ∷ [])
              ∷ [])),
      )
      ∷ [])

  unfoldable pub noop_tool : Value
  noop_tool = json_object (
      ("type", json_string "function")
      ∷ ("name", json_string "noop")
      ∷ ("description", json_string "No operation.")
      ∷ ("strict", make (bool false))
      ∷ (
        "parameters",
        json_object (
            ("type", json_string "object")
            ∷ ("properties", json_object [])
            ∷ ("additionalProperties", make (bool false))
            ∷ []),
      )
      ∷ [])

  unfoldable pub route_marker_tools : List Value
  route_marker_tools =
      map
        (λ name. json_object (
          ("type", json_string "namespace")
          ∷ ("name", json_string name)
          ∷ ("description", json_string "")
          ∷ ("tools", make (array (noop_tool ∷ [])))
          ∷ []))
        ("functions" ∷ "utility" ∷ "helpers" ∷ [])

  abbrev pub nonempty_array : Option (List Value) → Option (List Value)
  nonempty_array found = filter_option (λ tools. not (is_empty tools)) found

  abbrev pub holds_tools : Option (List Value) → Bool
  holds_tools found = not (is_none (nonempty_array found))

  unfoldable pub has_inline_tools : Fields → Bool
  has_inline_tools request = elim (and_then (get request "input") as_array) [
    | none ↦ false
    | some input ↦
        any
          (λ item.
            is_text "additional_tools" (as_str (index item "type"))
            && holds_tools (as_array (index item "tools")))
          input
  ]

  unfoldable pub lite_metadata : String → Fields → Fields
  lite_metadata request_key metadata = or_insert "thread_id" (json_string request_key) (
      or_insert "session_id" (json_string request_key) (
        insert metadata "ws_request_header_x_openai_internal_codex_responses_lite"
          (json_string "true")))

  -- The fields that are written whatever the request has.
  unfoldable pub fixed_fields : Bool → Fields → Fields
  fixed_fields disable_tools request =
      let fixed =
        insert
          (insert
            (insert (insert request "parallel_tool_calls" (make (bool false))) "type"
              (json_string "response.create"))
            "store" (make (bool false)))
          "stream" (make (bool true)) in
      if disable_tools then insert fixed "tool_choice" (json_string "none") else fixed

  unfoldable pub normalize_responses_lite_fields : String → Bool → Fields → Fields
  normalize_responses_lite_fields request_key disable_tools request =
      change_object "client_metadata" (lite_metadata request_key) (
        or_insert "client_metadata" (json_object []) (
          change_object "reasoning" (λ r. insert r "context" (json_string "all_turns"))
            (or_insert "reasoning" (json_object (("effort", json_string "medium") ∷ [])) (
              or_insert "text" (json_object (("verbosity", json_string "low") ∷ [])) (
                or_insert "prompt_cache_key" (json_string request_key) (
                  or_insert "include"
                    (make (array (json_string "reasoning.encrypted_content" ∷ [])))
                    (fixed_fields disable_tools request)))))))

  abbrev pub instruction_messages : Option String → List Value
  instruction_messages none = []
  instruction_messages (some text) = if str_eq text "" then [] else developer_message text ∷ []

  unfoldable pub prewarm_input : List Value → String → Option String → List Value
  prewarm_input tools base client =
      json_object (
        ("type", json_string "additional_tools")
        ∷ ("role", json_string "developer")
        ∷ ("tools", make (array tools))
        ∷ [])
      ∷ developer_message base
      ∷ instruction_messages client

  -- The warmup made of the request that is left.
  unfoldable pub prewarm_of : Fields → List Value → Fields
  prewarm_of request input =
      insert (insert (insert request "input" (make (array input))) "generate" (make (bool false)))
        "tool_choice" (json_string "auto")

  -- The request as the warmup's tools and instructions are taken from it.
  abbrev pub taken_from : Fields → Fields
  taken_from request = remove (remove request "tools") "instructions"

  -- The warmup, and the request that is left.
  unfoldable pub responses_lite_prewarm :
      Value → Value → String → Result UpstreamWebSocketError (Fields × Fields)
  responses_lite_prewarm value model request_key = do
    request ← ok_or (as_object value) request_error
    let tools = nonempty_array (and_then (get request "tools") as_array)
    let disable_tools = is_none tools && not (has_inline_tools (remove request "tools"))
    let client = and_then (get (remove request "tools") "instructions") as_str
    base ← ok_or (and_then (get_field model "base_instructions") as_str) request_error
    let kept = normalize_responses_lite_fields request_key disable_tools (taken_from request)
    ok (prewarm_of kept (prewarm_input (unwrap_or tools route_marker_tools) base client), kept)
