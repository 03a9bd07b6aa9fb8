-- ===== src/Sse/Reader.antt =====
-- src/sse.rs: one parsed event, and `SseReader::next`.
use codex_api.Common.{
  ℕ, not, Option, none, some, String, Result, ok, err, ◌>>=◌, map_err, if◌then◌else◌,
}
use codex_api.Json.{Json}
use codex_api.Terminal.Kind.{TerminalKind, event_name, from_name, same_kind}
use codex_api.Terminal.Event.{Failure, TerminalEvent, parse_terminal_payload}

-- The crate eventsource-stream's `Event`.
pub record Event : Type 0 where
  pub event : String
  pub id : String
  -- `data` in the source
  pub text : String
  pub retry : Option ℕ

pub data SseProtocolError : Type 0 where
  invalid_terminal_json : String → SseProtocolError
  invalid_terminal_field : String → String → String → SseProtocolError
  terminal_type_mismatch : String → String → SseProtocolError
  terminal_error : Failure → SseProtocolError

module _ ⦃J : Json⦄ where
  open J use {Value, from_str}

  pub record SseEvent : Type 0 where
    pub event : String
    pub id : String
    -- `data` in the source
    pub text : String
    pub retry : Option ℕ
    pub terminal : Option TerminalEvent

  pub data SseRead : Type 0 where
    read_event : SseEvent → SseRead
    eof : SseRead

  -- The kinds that the event's name and the payload's type give.
  unfoldable pub agree :
      Option TerminalKind → Option TerminalEvent → Result SseProtocolError (Option TerminalEvent)
  agree none none = ok none
  agree none (some terminal) = ok (some terminal)
  agree (some event_kind) none =
      err (invalid_terminal_field (event_name event_kind) "type" (event_name event_kind))
  agree (some event_kind) (some terminal) =
      if not (same_kind event_kind terminal.kind)
      then err (terminal_type_mismatch (event_name event_kind) (event_name terminal.kind))
      else ok (some terminal)

  unfoldable pub validate_event : Event → Result SseProtocolError (Option TerminalEvent)
  validate_event event =
      let event_kind = from_name event.event in
      elim (from_str event.text) [
        | none ↦ elim event_kind [
          | none ↦ ok none
          | some _ ↦ err (invalid_terminal_json event.event)
        ]
        | some payload ↦ do
          found ← map_err terminal_error (parse_terminal_payload payload)
          agree event_kind found
      ]

  -- An error of the byte stream has a type of the caller's.
  pub data SseReadError (E : Type 0) : Type 0 where
    stream : E → SseReadError E
    protocol : SseProtocolError → SseReadError E

  unfoldable pub next : {E : Type 0} → Option (Result E Event) → Result (SseReadError E) SseRead
  next none = ok eof
  next (some (err error)) = err (stream error)
  next (some (ok event)) = do
    terminal ← map_err protocol (validate_event event)
    ok (
        read_event (record {
          event = event.event;
          id = event.id;
          text = event.text;
          retry = event.retry;
          terminal = terminal;
        }))
