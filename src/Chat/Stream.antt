-- ===== src/Chat/Stream.antt =====
-- src/chat.rs: `ChatStreamConverter`. An operation returns its result with the converter, which an
-- error may leave with some of the metadata changed.
use codex_api.Common.{
  ℤ, Bool, Option, none, some, List, [], ◌∷◌, String, str_eq, Result, ok, err, ◌>>=◌, ok_or,
  and_then, if◌then◌else◌,
}
use codex_api.Json.{Json, array, number, null}
use codex_api.Json.Access.{as_object, as_str, get_field, json_object, json_string, json_option}
use codex_api.Terminal.Event.{Usage, TerminalEvent}
use codex_api.Chat.Upstream.{
  ChatError, TerminalStatus, status_completed, status_incomplete, upstream_chat_error,
  upstream_string, upstream_integer, completion_status, incomplete_finish_reason, chat_usage,
  json_count,
}

pub record ChatStreamConverter : Type 0 where
  pub id : Option String
  pub created : Option ℤ
  pub model : Option String
  pub include_usage : Bool

unfoldable pub new_converter : Bool → ChatStreamConverter
new_converter include_usage = record {
  id = none;
  created = none;
  model = none;
  include_usage = include_usage;
}

pub record StreamMetadata : Type 0 where
  pub id : String
  pub created : ℤ
  pub model : String

unfoldable pub metadata_of :
    Option String → Option ℤ → Option String → Result ChatError StreamMetadata
metadata_of (some id) (some created) (some model) =
    ok (record { id = id; created = created; model = model })
metadata_of _ _ _ =
    err (upstream_chat_error "upstream emitted Chat content before response metadata")

unfoldable pub metadata : ChatStreamConverter → Result ChatError StreamMetadata
metadata c = metadata_of c.id c.created c.model

module _ ⦃J : Json⦄ where
  open J use {Value, Fields, make, get, from_i64}

  -- Each field is set before the next is read.
  unfoldable pub capture_metadata :
      Fields → ChatStreamConverter → Result ChatError (Unit {0}) × ChatStreamConverter
  capture_metadata response c = elim (upstream_string response "id" "response") [
    | err e ↦ (err e, c)
    | ok id ↦
        let with_id = record c { id = some id } in
        elim (upstream_integer response "created_at" "response") [
          | err e ↦ (err e, with_id)
          | ok created ↦
              let with_created = record with_id { created = some created } in
              elim (upstream_string response "model" "response") [
                | err e ↦ (err e, with_created)
                | ok model ↦ (ok tt, record with_created { model = some model })
              ]
        ]
  ]

  unfoldable pub chunk_value : StreamMetadata → List (String × Value) → Value
  chunk_value m rest = json_object (
      ("id", json_string m.id)
      ∷ ("object", json_string "chat.completion.chunk")
      ∷ ("created", make (number (from_i64 m.created)))
      ∷ ("model", json_string m.model)
      ∷ rest)

  unfoldable pub choices_value : Value → Option String → Value
  choices_value delta finish_reason = make (
      array (
        json_object (
          ("index", json_count 0)
          ∷ ("delta", delta)
          ∷ ("logprobs", make null)
          ∷ ("finish_reason", json_option finish_reason)
          ∷ [])
        ∷ []))

  unfoldable pub chunk : ChatStreamConverter → Value → Option String → Result ChatError Value
  chunk c delta finish_reason = do
    m ← metadata c
    ok (chunk_value m (("choices", choices_value delta finish_reason) ∷ []))

  unfoldable pub usage_chunk : ChatStreamConverter → Usage → Result ChatError Value
  usage_chunk c usage = do
    m ← metadata c
    ok (chunk_value m (("choices", make (array [])) ∷ ("usage", chat_usage usage) ∷ []))

  unfoldable pub created_chunk :
      Result ChatError (Unit {0}) × ChatStreamConverter
      → Result ChatError (Option Value) × ChatStreamConverter
  created_chunk (err e, c) = (err e, c)
  created_chunk (ok _, c) = (
    (do
      value ←
          chunk c
            (json_object (("role", json_string "assistant") ∷ ("content", json_string "") ∷ []))
            none
      ok (some value)),
    c,
  )

  unfoldable pub delta_chunk : ChatStreamConverter → Value → Result ChatError (Option Value)
  delta_chunk c event = do
    delta ←
        ok_or (and_then (get_field event "delta") as_str)
          (upstream_chat_error "response.output_text.delta.delta must be a string")
    value ← chunk c (json_object (("content", json_string delta) ∷ [])) none
    ok (some value)

  unfoldable pub convert_event :
      Value → ChatStreamConverter → Result ChatError (Option Value) × ChatStreamConverter
  convert_event event c = elim (and_then (get_field event "type") as_str) [
    | none ↦ (ok none, c)
    | some name ↦
        if str_eq name "response.created"
        then elim (and_then (get_field event "response") as_object) [
          | none ↦ (err (upstream_chat_error "response.created is missing response"), c)
          | some response ↦ created_chunk (capture_metadata response c)
        ]
        else if str_eq name "response.output_text.delta"
        then (delta_chunk c event, c)
        else (ok none, c)
  ]

  pub record ConvertedStreamTerminal : Type 0 where
    pub chunks : List Value
    pub usage : Usage
    pub status : TerminalStatus

  abbrev pub stream_reason : TerminalStatus → Fields → Result ChatError String
  stream_reason status_completed response = ok "stop"
  stream_reason status_incomplete response = incomplete_finish_reason response

  -- What follows the metadata.
  unfoldable pub final_chunks :
      ChatStreamConverter
      → Option Usage
      → TerminalStatus
      → Fields
      → Result ChatError ConvertedStreamTerminal
  final_chunks c found status response = do
    usage ← ok_or found (upstream_chat_error "terminal response is missing usage")
    finish_reason ← stream_reason status response
    last ← chunk c (json_object []) (some finish_reason)
    chunks ←
        (if c.include_usage
          then (do counted ← usage_chunk c usage; ok (last ∷ counted ∷ []))
          else ok (last ∷ []))
    ok (record { chunks = chunks; usage = usage; status = status })

  unfoldable pub convert_terminal :
      TerminalEvent
      → ChatStreamConverter
      → Result ChatError ConvertedStreamTerminal × ChatStreamConverter
  convert_terminal terminal c = elim (completion_status terminal.kind) [
    | err e ↦ (err e, c)
    | ok status ↦ elim (and_then (get_field terminal.payload "response") as_object) [
      | none ↦ (err (upstream_chat_error "terminal event is missing its response object"), c)
      | some response ↦
          let (result, after) = capture_metadata response c in
          elim result [
            | err e ↦ (err e, after)
            | ok _ ↦ (final_chunks after terminal.usage status response, after)
          ]
    ]
  ]
