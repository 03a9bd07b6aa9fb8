-- ===== src/Chat/Request/Text.antt =====
-- src/chat.rs: `parse_text_parts` and `convert_text_content`.
use codex_api.Common.{
  ℕ, suc, List, [], ◌∷◌, map, String, str_eq, ◌⧺◌, Result, ok, err, ◌>>=◌, ◌>>◌, ensure,
}
use codex_api.Json.{Json, string, array}
use codex_api.Json.Access.{json_object, json_string}
use codex_api.Chat.Upstream.{ChatError, invalid_error, show_number}
use codex_api.Chat.Request.Fields.{
  into_request_object, take_request_string, reject_unknown_request_fields,
}

module _ ⦃J : Json⦄ where
  open J use {Value, view}

  unfoldable pub parse_text_part : Value → String → Result ChatError String
  parse_text_part value context = do
    part ← into_request_object value context
    (part_type, rest) ← take_request_string part "type" (context ⧺ ".type")
    ensure (str_eq part_type "text")
        (invalid_error (context ⧺ ".type") ("unsupported content type " ⧺ part_type))
    (text, others) ← take_request_string rest "text" (context ⧺ ".text")
    reject_unknown_request_fields others context
    ok text

  unfoldable pub parse_each : String → ℕ → List Value → Result ChatError (List String)
  parse_each param index [] = ok []
  parse_each param index (part ∷ parts) = do
    text ← parse_text_part part (param ⧺ "[" ⧺ show_number index ⧺ "]")
    texts ← parse_each param (suc index) parts
    ok (text ∷ texts)

  unfoldable pub parse_text_parts : Value → String → Result ChatError (List String)
  parse_text_parts value param = elim (view value) [
    | string text ↦ ok (text ∷ [])
    | array [] ↦ err (invalid_error param (param ⧺ " must contain at least one text part"))
    | array (part ∷ parts) ↦ parse_each param 0 (part ∷ parts)
    | _ ↦ err (invalid_error param (param ⧺ " must be a string or an array of text parts"))
  ]

  unfoldable pub convert_text_content : Value → String → String → Result ChatError (List Value)
  convert_text_content value param responses_type = do
    texts ← parse_text_parts value param
    ok (
        map
          (λ text.
            json_object (("type", json_string responses_type) ∷ ("text", json_string text) ∷ []))
          texts)

  unfoldable pub concat_texts : List String → String
  concat_texts [] = ""
  concat_texts (text ∷ texts) = text ⧺ concat_texts texts

  -- `join("\n")`
  unfoldable pub join_lines : List String → String
  join_lines [] = ""
  join_lines (text ∷ []) = text
  join_lines (text ∷ (next ∷ texts)) = text ⧺ "\n" ⧺ join_lines (next ∷ texts)
