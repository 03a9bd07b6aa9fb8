-- ===== src/Chat/Output.antt =====
-- src/chat.rs: `convert_output` and `convert_output_message`.
use codex_api.Common.{
  ℕ, suc, Option, none, some, List, [], ◌∷◌, ◌++◌, String, str_eq, ◌⧺◌, Result, ok, err, ◌>>=◌,
  ◌>>◌, ensure, ok_or, and_then, unwrap_or, if◌then◌else◌,
}
use codex_api.Json.{Json}
use codex_api.Json.Access.{as_object, as_array, json_object, json_string}
use codex_api.Chat.Upstream.{ChatError, upstream_chat_error, upstream_string, show_number}

module _ ⦃J : Json⦄ where
  open J use {Value, Fields, get}

  pub record ConvertedOutput : Type 0 where
    pub text : Option String
    pub refusal : Option String
    pub tool_calls : List Value

  -- `get_or_insert_with(String::new).push_str(...)`
  unfoldable pub push_str : Option String → String → Option String
  push_str so_far more = some (unwrap_or so_far "" ⧺ more)

  unfoldable pub convert_typed_part :
      Fields → String → ConvertedOutput → Result ChatError ConvertedOutput
  convert_typed_part part part_type converted =
      if str_eq part_type "output_text"
      then (do
        text ← upstream_string part "text" "output_text content part"
        ok (record converted { text = push_str converted.text text }))
      else if str_eq part_type "refusal"
      then (do
        refusal ← upstream_string part "refusal" "refusal content part"
        ok (record converted { refusal = push_str converted.refusal refusal }))
      else err (upstream_chat_error ("unsupported Responses message content type " ⧺ part_type))

  unfoldable pub convert_part : ℕ → ℕ → Value → ConvertedOutput → Result ChatError ConvertedOutput
  convert_part item_index content_index value converted = do
    part ← ok_or (as_object value) (
        upstream_chat_error (
          "response output["
          ⧺ show_number item_index
          ⧺ "].content["
          ⧺ show_number content_index
          ⧺ "] must be an object"))
    part_type ← upstream_string part "type" "message content part"
    convert_typed_part part part_type converted

  unfoldable pub convert_parts :
      ℕ → ℕ → List Value → ConvertedOutput → Result ChatError ConvertedOutput
  convert_parts item_index content_index [] converted = ok converted
  convert_parts item_index content_index (part ∷ parts) converted = do
    after ← convert_part item_index content_index part converted
    convert_parts item_index (suc content_index) parts after

  unfoldable pub convert_output_message :
      Fields → ℕ → ConvertedOutput → Result ChatError ConvertedOutput
  convert_output_message item item_index converted = do
    role ← upstream_string item "role" "message output item"
    ensure (str_eq role "assistant")
        (upstream_chat_error "Responses message output role must be assistant")
    content ←
        ok_or (and_then (get item "content") as_array)
          (upstream_chat_error "Responses message content must be an array")
    convert_parts item_index 0 content converted

  unfoldable pub convert_function_call : Fields → ConvertedOutput → Result ChatError ConvertedOutput
  convert_function_call item converted = do
    call_id ← upstream_string item "call_id" "function call output item"
    name ← upstream_string item "name" "function call output item"
    arguments ← upstream_string item "arguments" "function call output item"
    let call = json_object (
        ("id", json_string call_id)
        ∷ ("type", json_string "function")
        ∷ (
          "function",
          json_object (("name", json_string name) ∷ ("arguments", json_string arguments) ∷ []),
        )
        ∷ [])
    ok (record converted { tool_calls = converted.tool_calls ++ call ∷ [] })

  unfoldable pub convert_typed_item :
      ℕ → Fields → String → ConvertedOutput → Result ChatError ConvertedOutput
  convert_typed_item index item item_type converted =
      if str_eq item_type "reasoning"
      then ok converted
      else if str_eq item_type "message"
      then convert_output_message item index converted
      else if str_eq item_type "function_call"
      then convert_function_call item converted
      else err (upstream_chat_error ("unsupported Responses output item type " ⧺ item_type))

  unfoldable pub convert_item : ℕ → Value → ConvertedOutput → Result ChatError ConvertedOutput
  convert_item index value converted = do
    item ←
        ok_or (as_object value)
          (upstream_chat_error ("response output item " ⧺ show_number index ⧺ " must be an object"))
    item_type ← upstream_string item "type" "response output item"
    convert_typed_item index item item_type converted

  unfoldable pub convert_items : ℕ → List Value → ConvertedOutput → Result ChatError ConvertedOutput
  convert_items index [] converted = ok converted
  convert_items index (item ∷ items) converted = do
    after ← convert_item index item converted
    convert_items (suc index) items after

  abbrev pub nothing_converted : ConvertedOutput
  nothing_converted = record { text = none; refusal = none; tool_calls = [] }

  unfoldable pub convert_output : List Value → Result ChatError ConvertedOutput
  convert_output output = convert_items 0 output nothing_converted
