-- ===== src/Chat/Status.antt =====
-- The streaming and the plain completion of one terminal event agree (src/chat.rs).
use codex_api.Common.{◌≡◌, inl, inr, Option, some, ok, Option-cases, Result-cases, and_then, arith}
use codex_api.Json.{Json}
use codex_api.Json.Access.{as_object, get_field}
use codex_api.Terminal.Event.{Usage, TerminalEvent}
use codex_api.Chat.Upstream.{TerminalStatus, completion_status}
use codex_api.Chat.Stream.{
  ChatStreamConverter, capture_metadata, ConvertedStreamTerminal, final_chunks, convert_terminal,
}
use codex_api.Chat.Terminal.{ConvertedTerminal, convert_response, convert_terminal_event}

module _ ⦃J : Json⦄ where
  open J use {Value, Fields, get}

  final_chunks_ok :
      (c : ChatStreamConverter) (found : Option Usage) (status : TerminalStatus) (response : Fields)
      (out : ConvertedStreamTerminal)
      → final_chunks c found status response ≡ ok out
      → (found ≡ some out.usage) × (out.status ≡ status)
  unfolding final_chunks
  final_chunks_ok c found status response out h = ground (arith, h)

  convert_terminal_ok :
      (terminal : TerminalEvent) (c after : ChatStreamConverter) (out : ConvertedStreamTerminal)
      → convert_terminal terminal c ≡ (ok out, after)
      → (completion_status terminal.kind ≡ ok out.status) × (terminal.usage ≡ some out.usage)
  unfolding convert_terminal
  convert_terminal_ok terminal c after out h =
      elim (Result-cases (completion_status terminal.kind)) [
        | inl (e, p) ↦ absurd (cc (rw (p, convert_terminal) at h))
        | inr (status, p) ↦
            elim (Option-cases (and_then (get_field terminal.payload "response") as_object)) [
              | inl q ↦ absurd (cc (rw (p, q, convert_terminal) at h))
              | inr (response, q) ↦
                  let k = capture_metadata response c in
                  elim (Result-cases k.0) [
                    | inl (e, r) ↦ absurd (cc (rw (p, q, r, convert_terminal) at h))
                    | inr (u, r) ↦
                        let t = rw (p, q, r, convert_terminal) at h in
                        let (f, s) = final_chunks_ok k.1 terminal.usage status response out cc in
                        (cc, f)
                  ]
            ]
      ]

  convert_response_ok :
      (status : TerminalStatus) (found : Option Usage) (response : Fields) (out : ConvertedTerminal)
      → convert_response status found response ≡ ok out
      → (found ≡ some out.usage) × (out.status ≡ status)
  unfolding convert_response
  convert_response_ok status found response out h = ground (arith, h)

  convert_terminal_event_ok :
      (terminal : TerminalEvent) (out : ConvertedTerminal)
      → convert_terminal_event terminal ≡ ok out
      → (completion_status terminal.kind ≡ ok out.status) × (terminal.usage ≡ some out.usage)
  unfolding convert_terminal_event
  convert_terminal_event_ok terminal out h = elim (Result-cases (completion_status terminal.kind)) [
    | inl (e, p) ↦ absurd (cc (rw (p, convert_terminal_event) at h))
    | inr (status, p) ↦ elim (Option-cases (as_object terminal.payload)) [
      | inl q ↦ absurd (cc (rw (p, q, convert_terminal_event) at h))
      | inr (event, q) ↦ elim (Option-cases (and_then (get event "response") as_object)) [
        | inl r ↦ absurd (cc (rw (p, q, r, convert_terminal_event) at h))
        | inr (response, r) ↦
            let (f, s) =
              convert_response_ok status terminal.usage response out
                (rw (p, q, r, convert_terminal_event) at h) in
            (cc, f)
      ]
    ]
  ]

  -- Where both conversions of a terminal event succeed, the stream and the plain completion report
  -- the same final status and bill the same usage, which are those of the event.
  pub convert_terminal-agrees :
      (terminal : TerminalEvent) (c after : ChatStreamConverter)
      (streamed : ConvertedStreamTerminal) (plain : ConvertedTerminal)
      → convert_terminal terminal c ≡ (ok streamed, after)
      → convert_terminal_event terminal ≡ ok plain
      → (streamed.status ≡ plain.status)
        × (streamed.usage ≡ plain.usage)
        × (terminal.usage ≡ some plain.usage)
        × (completion_status terminal.kind ≡ ok plain.status)
  convert_terminal-agrees terminal c after streamed plain h k =
      let (a, b) = convert_terminal_ok terminal c after streamed h in
      let (d, e) = convert_terminal_event_ok terminal plain k in (cc, cc, e, d)
