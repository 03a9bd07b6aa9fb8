-- ===== src/Chat/Request/Tools.antt =====
-- src/chat.rs: `convert_tools` and `convert_tool_choice`.
use codex_api.Common.{
  ℕ, suc, Bool, false, ◌||◌, Option, none, some, List, [], ◌∷◌, String, str_eq, ◌⧺◌, Result, ok,
  err, ◌>>=◌, ◌>>◌, ensure, ok_or, if◌then◌else◌,
}
use codex_api.Json.{Json, null, bool, string, array, object}
use codex_api.Json.Access.{as_object, as_array, as_str, is_null, json_object, json_string}
use codex_api.Chat.Upstream.{ChatError, invalid_error, show_number}
use codex_api.Chat.Request.Fields.{
  into_request_object, take_request_string, take_required, request_bool,
  reject_unknown_request_fields, convert_option,
}

module _ ⦃J : Json⦄ where
  open J use {Value, Fields, view, make, get, insert, remove, empty}

  unfoldable pub tool_parameters : String → Option Value → Result ChatError Value
  tool_parameters context none = ok (make null)
  tool_parameters context (some value) = elim (view value) [
    | null ↦ ok (make null)
    | object fields ↦ ok value
    | _ ↦ err (
        invalid_error (context ⧺ ".parameters") (context ⧺ ".parameters must be an object or null"))
  ]

  unfoldable pub tool_strict : String → Option Value → Result ChatError Bool
  tool_strict context none = ok false
  tool_strict context (some value) =
      if is_null value then ok false else request_bool value (context ⧺ ".strict")

  unfoldable pub tool_value : String → Option String → Value → Bool → Value
  tool_value name description parameters strict =
      let named = insert (insert empty "type" (json_string "function")) "name" (json_string name) in
      let described : Fields = elim description [
        | none ↦ named
        | some text ↦ insert named "description" (json_string text)
      ] in
      make
        (object (insert (insert described "parameters" parameters) "strict" (make (bool strict))))

  unfoldable pub convert_tool : Value → String → Result ChatError Value
  convert_tool value context = do
    tool ← ok_or (as_object value) (invalid_error context (context ⧺ " must be an object"))
    (tool_type, with_function) ← take_request_string tool "type" (context ⧺ ".type")
    ensure (str_eq tool_type "function")
        (invalid_error (context ⧺ ".type") "only function tools are supported")
    (function_value, rest) ← take_required with_function "function" (context ⧺ ".function")
    reject_unknown_request_fields rest context
    function ← into_request_object function_value (context ⧺ ".function")
    (name, unnamed) ← take_request_string function "name" (context ⧺ ".function" ⧺ ".name")
    parameters ← tool_parameters (context ⧺ ".function") (get unnamed "parameters")
    let undefined = remove unnamed "parameters"
    description ←
        convert_option
          (λ v. ok_or (as_str v) (
            invalid_error (context ⧺ ".function" ⧺ ".description")
              (context ⧺ ".function" ⧺ ".description must be a string")))
          (get undefined "description")
    let undescribed = remove undefined "description"
    strict ← tool_strict (context ⧺ ".function") (get undescribed "strict")
    reject_unknown_request_fields (remove undescribed "strict") (context ⧺ ".function")
    ok (tool_value name description parameters strict)

  unfoldable pub convert_each_tool : ℕ → List Value → Result ChatError (List Value)
  convert_each_tool index [] = ok []
  convert_each_tool index (tool ∷ tools) = do
    converted ← convert_tool tool ("tools[" ⧺ show_number index ⧺ "]")
    others ← convert_each_tool (suc index) tools
    ok (converted ∷ others)

  unfoldable pub convert_tools : Value → Result ChatError Value
  convert_tools value = do
    tools ← ok_or (as_array value) (invalid_error "tools" "tools must be an array")
    converted ← convert_each_tool 0 tools
    ok (make (array converted))

  unfoldable pub named_choice : Fields → Result ChatError Value
  named_choice choice = do
    (choice_type, with_function) ← take_request_string choice "type" "tool_choice.type"
    ensure (str_eq choice_type "function")
        (invalid_error "tool_choice.type" "only named function tool_choice objects are supported")
    (function_value, rest) ← take_required with_function "function" "tool_choice.function"
    reject_unknown_request_fields rest "tool_choice"
    function ← into_request_object function_value "tool_choice.function"
    (name, others) ← take_request_string function "name" "tool_choice.function.name"
    reject_unknown_request_fields others "tool_choice.function"
    ok (json_object (("type", json_string "function") ∷ ("name", json_string name) ∷ []))

  unfoldable pub convert_tool_choice : Value → Result ChatError Value
  convert_tool_choice value = elim (view value) [
    | string choice ↦
        if str_eq choice "none" || str_eq choice "auto" || str_eq choice "required"
        then ok (json_string choice)
        else err (
            invalid_error "tool_choice"
              "tool_choice must be none, auto, required, or a named function")
    | object choice ↦ named_choice choice
    | _ ↦ err (invalid_error "tool_choice" "tool_choice must be a string or named function object")
  ]
