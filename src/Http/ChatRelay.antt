-- ===== src/Http/ChatRelay.antt =====
-- src/http_api.rs: `forward_chat_stream`, which relays the upstream's events to the client of a chat
-- completion and settles the request. A panic is `none`.
use codex_api.Common.{
  ℕ, zero, suc, Bool, true, false, Option, none, some, List, [], ◌∷◌, ◌++◌, map, String, ◌⧺◌,
  Result, ok, err, map_option,
}
use codex_api.Json.{Json}
use codex_api.Store.Decimals.{Decimals}
use codex_api.Store.Times.{Times}
use codex_api.Store.Types.{FinalStatus, completed, incomplete, upstream_error, canceled, ModelRates}
use codex_api.Store.Ledger.{Ledger}
use codex_api.Terminal.Event.{TerminalEvent}
use codex_api.Terminal.Capacity.{upstream_error as error_of}
use codex_api.Errors.Api.{upstream, body}
use codex_api.Pending.Handle.{Handle, Circumstances, finish, finish_terminal}
use codex_api.Sse.Reader.{SseEvent, SseRead, read_event, eof, SseReadError}
use codex_api.Chat.Upstream.{ChatError, TerminalStatus, status_completed, status_incomplete}
use codex_api.Chat.Stream.{
  ChatStreamConverter, new_converter, convert_event, ConvertedStreamTerminal, convert_terminal,
}
use codex_api.Http.Relay.{billable_usage}

unfoldable pub chat_status : TerminalStatus → FinalStatus
chat_status status_completed = completed
chat_status status_incomplete = incomplete

-- The pieces that the client takes before it goes, of those that are sent to it.
abbrev pub taken : ℕ → List String → List String
taken zero pieces = []
taken (suc n) [] = []
taken (suc n) (piece ∷ pieces) = piece ∷ taken n pieces

module _ ⦃J : Json⦄ where
  open J use {Value, to_text, from_str}

  unfoldable pub chat_sse_bytes : Value → String
  chat_sse_bytes value = "data: " ⧺ to_text value ⧺ "\n\n"

  abbrev pub final_pieces : List Value → List String
  final_pieces chunks = map chat_sse_bytes chunks ++ "data: [DONE]\n\n" ∷ []

  -- What the relay meets in a round: the server stops or the client goes, or the reader yields
  -- something, with how many of the pieces that are sent for it the client takes.
  pub data ChatArrival : Type 1 where
    chat_stopped : ChatArrival
    chat_read : {E : Type 0} → Result (SseReadError E) SseRead → ℕ → ChatArrival

module _ ⦃J : Json⦄ ⦃D : Decimals⦄ where
  -- The bytes that the client took, and what is left of the request.
  pub record ChatForwarded : Type 0 where
    pub sent : List String
    pub handle : Handle
    pub ledger : Ledger

  abbrev pub prepend : List String → Option ChatForwarded → Option ChatForwarded
  prepend pieces none = none
  prepend pieces (some r) = some (record r { sent = pieces ++ r.sent })

module _ ⦃J : Json⦄ ⦃D : Decimals⦄ ⦃T : Times⦄ where
  open J use {Value, to_text, from_str}

  unfoldable pub stop_chat : Circumstances → FinalStatus → Handle → Ledger → Option ChatForwarded
  stop_chat c status handle l = elim (finish c status (some 200) none handle l) [
    | none ↦ none
    | some (_, rest, after) ↦ some (record { sent = []; handle = rest; ledger = after })
  ]

  -- What is sent once the request is settled; with `true`, nothing is if that fails.
  abbrev pub after_finish :
      (Bool × List String)
      → Option (Result (Unit {0}) (Unit {0}) × Handle × Ledger)
      → Option ChatForwarded
  after_finish pieces none = none
  after_finish pieces (some (ok _, rest, after)) =
      some (record { sent = pieces.1; handle = rest; ledger = after })
  after_finish (true, pieces) (some (err _, rest, after)) =
      some (record { sent = []; handle = rest; ledger = after })
  after_finish (false, pieces) (some (err _, rest, after)) =
      some (record { sent = pieces; handle = rest; ledger = after })

  module _ (c d : Circumstances) (rates : ModelRates) (handle : Handle) (l : Ledger) where
    abbrev pub fail_chat : TerminalEvent → List String → Option ChatForwarded
    fail_chat terminal pieces =
        after_finish (false, pieces)
          (finish_terminal c d upstream_error 200 200
            (map_option (λ usage. billable_usage usage rates) terminal.usage) handle l)

    abbrev pub complete_chat :
        TerminalEvent → ℕ → Result ChatError ConvertedStreamTerminal → Option ChatForwarded
    complete_chat terminal accepts (err _) = fail_chat terminal []
    complete_chat terminal accepts (ok converted) =
        after_finish (true, taken accepts (final_pieces converted.chunks))
          (finish_terminal c d (chat_status converted.status) 200 200
            (some (billable_usage converted.usage rates)) handle l)

    unfoldable pub settle_chat : ChatStreamConverter → TerminalEvent → ℕ → Option ChatForwarded
    settle_chat converter terminal accepts = elim (error_of terminal) [
      | some error ↦
          fail_chat terminal (taken accepts (chat_sse_bytes (body (upstream error)) ∷ []))
      | none ↦ complete_chat terminal accepts (convert_terminal terminal converter).0
    ]

    abbrev pub send_chunk :
        (ChatStreamConverter → Option ChatForwarded)
        → ℕ
        → Result ChatError (Option Value) × ChatStreamConverter
        → Option ChatForwarded
    send_chunk next accepts (err _, converter) = stop_chat c upstream_error handle l
    send_chunk next accepts (ok none, converter) = next converter
    send_chunk next zero (ok (some chunk), converter) = stop_chat c canceled handle l
    send_chunk next (suc _) (ok (some chunk), converter) =
        prepend (chat_sse_bytes chunk ∷ []) (next converter)

    abbrev pub forward_event :
        (ChatStreamConverter → Option ChatForwarded)
        → ChatStreamConverter
        → ℕ
        → SseEvent
        → Option TerminalEvent
        → Option Value
        → Option ChatForwarded
    forward_event next converter accepts event (some terminal) value =
        settle_chat converter terminal accepts
    forward_event next converter accepts event none none = next converter
    forward_event next converter accepts event none (some value) =
        send_chunk next accepts (convert_event value converter)

    -- The loop, with the converter so far.
    unfoldable pub forward_chat_events :
        ChatStreamConverter → List ChatArrival → Option ChatForwarded
    forward_chat_events converter [] = stop_chat c canceled handle l
    forward_chat_events converter (chat_stopped ∷ rest) = stop_chat c canceled handle l
    forward_chat_events converter (chat_read (err _) _ ∷ rest) = stop_chat c upstream_error handle l
    forward_chat_events converter (chat_read (ok eof) _ ∷ rest) =
        stop_chat c upstream_error handle l
    forward_chat_events converter (chat_read (ok (read_event event)) accepts ∷ rest) =
        forward_event (λ after. forward_chat_events after rest) converter accepts event
          event.terminal (from_str event.text)

    unfoldable pub forward_chat_stream : Bool → List ChatArrival → Option ChatForwarded
    forward_chat_stream include_usage arrivals =
        forward_chat_events (new_converter include_usage) arrivals
