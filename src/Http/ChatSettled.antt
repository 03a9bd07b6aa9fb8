-- ===== src/Http/ChatSettled.antt =====
-- The chat relay of src/http_api.rs settles its request.
use codex_api.Common.{
  ℕ, zero, suc, ◌≡◌, refl, inl, inr, Bool, true, false, Option, none, some, List, [], ◌∷◌, String,
  Result, ok, err, Option-cases, map_option,
}
use codex_api.Json.{Json}
use codex_api.Store.Decimals.{Decimals}
use codex_api.Store.Times.{Times}
use codex_api.Store.Types.{FinalStatus, upstream_error, canceled, BillableUsage, ModelRates}
use codex_api.Store.Ledger.{Ledger, select_started}
use codex_api.Terminal.Event.{TerminalEvent}
use codex_api.Terminal.Capacity.{upstream_error as error_of}
use codex_api.Pending.Handle.{opened, finalized, finish, finish_terminal, take_open}
use codex_api.Pending.Closing.{calm, finalize_nothing_closes, finish_terminal_closes}
use codex_api.Sse.Reader.{SseEvent, read_event, eof}
use codex_api.Chat.Upstream.{ChatError}
use codex_api.Chat.Stream.{
  ChatStreamConverter, new_converter, convert_event, ConvertedStreamTerminal, convert_terminal,
}
use codex_api.Errors.Api.{upstream, body}
use codex_api.Http.Relay.{billable_usage}
use codex_api.Http.Settled.{Settling}
use codex_api.Http.ChatRelay.{
  chat_status, ChatArrival, chat_stopped, chat_read, ChatForwarded, prepend, stop_chat,
  after_finish, complete_chat, settle_chat, send_chunk, forward_event, forward_chat_events,
  forward_chat_stream, taken, final_pieces, chat_sse_bytes,
}

module _ ⦃J : Json⦄ ⦃D : Decimals⦄ ⦃T : Times⦄ where
  open J use {Value, from_str}

  -- The relay came to its end, and the row of the request is closed.
  abbrev pub ChatSettles : ℕ → Option ChatForwarded → Type 0
  ChatSettles id none = ⊥
  ChatSettles id (some r) = (r.handle ≡ finalized) × (select_started id r.ledger.rows ≡ none)

  prepend-ChatSettles :
      (id : ℕ) (pieces : List String) (r : Option ChatForwarded)
      → ChatSettles id r
      → ChatSettles id (prepend pieces r)
  prepend-ChatSettles id pieces none s = s
  prepend-ChatSettles id pieces (some r) s = s

  after_finish-ChatSettles :
      (id : ℕ) (pieces : Bool × List String) (result : Result (Unit {0}) (Unit {0}))
      (after : Ledger)
      → select_started id after.rows ≡ none
      → ChatSettles id (after_finish pieces (some (result, finalized, after)))
  after_finish-ChatSettles id pieces (ok _) after h = (refl, h)
  after_finish-ChatSettles id (true, pieces) (err _) after h = (refl, h)
  after_finish-ChatSettles id (false, pieces) (err _) after h = (refl, h)

  module _ (s : Settling) (rates : ModelRates) where
    stop_chat-ChatSettles :
        (status : FinalStatus)
        → ChatSettles s.request.request_id
            (stop_chat (calm s.first) status (opened s.request) s.ledger)
    unfolding stop_chat finish take_open
    stop_chat-ChatSettles status = (
      refl,
      finalize_nothing_closes s.request.request_id status (some 200) s.first s.first_ms s.ledger
          s.valid s.first_clock refl,
    )

    settled-ChatSettles :
        (pieces : Bool × List String) (status : FinalStatus) (usage : Option BillableUsage)
        → ChatSettles s.request.request_id (
            after_finish pieces (
              finish_terminal
                (calm s.first)
                (calm s.second)
                status
                200
                200
                usage
                (opened s.request)
                s.ledger))
    settled-ChatSettles pieces status usage =
        let (result, after, q, closed) =
          finish_terminal_closes s.request (true, true) s.first s.second s.second_ms status 200 200
            usage s.ledger s.valid s.second_clock refl in
        rw q (after_finish-ChatSettles s.request.request_id pieces result after closed)

    complete_chat-ChatSettles :
        (terminal : TerminalEvent) (accepts : ℕ) (r : Result ChatError ConvertedStreamTerminal)
        → ChatSettles s.request.request_id (
            complete_chat
              (calm s.first)
              (calm s.second)
              rates
              (opened s.request)
              s.ledger
              terminal
              accepts
              r)
    complete_chat-ChatSettles terminal accepts (err _) =
        settled-ChatSettles (false, []) upstream_error
          (map_option (λ usage. billable_usage usage rates) terminal.usage)
    complete_chat-ChatSettles terminal accepts (ok converted) =
        settled-ChatSettles (true, taken accepts (final_pieces converted.chunks))
          (chat_status converted.status) (some (billable_usage converted.usage rates))

    settle_chat-ChatSettles :
        (converter : ChatStreamConverter) (terminal : TerminalEvent) (accepts : ℕ)
        → ChatSettles s.request.request_id (
            settle_chat
              (calm s.first)
              (calm s.second)
              rates
              (opened s.request)
              s.ledger
              converter
              terminal
              accepts)
    unfolding settle_chat
    settle_chat-ChatSettles converter terminal accepts = elim (Option-cases (error_of terminal)) [
      | inl p ↦
          rw (p, settle_chat)
            (complete_chat-ChatSettles terminal accepts (convert_terminal terminal converter).0)
      | inr (error, p) ↦
          rw (p, settle_chat)
            (settled-ChatSettles
              (false, taken accepts (chat_sse_bytes (body (upstream error)) ∷ [])) upstream_error
              (map_option (λ usage. billable_usage usage rates) terminal.usage))
    ]

    send_chunk-ChatSettles :
        (next : ChatStreamConverter → Option ChatForwarded) (accepts : ℕ)
        (r : Result ChatError (Option Value) × ChatStreamConverter)
        → ((converter : ChatStreamConverter) → ChatSettles s.request.request_id (next converter))
        → ChatSettles s.request.request_id (
            send_chunk
              (calm s.first)
              (calm s.second)
              rates
              (opened s.request)
              s.ledger
              next
              accepts
              r)
    send_chunk-ChatSettles next accepts (err _, converter) h = stop_chat-ChatSettles upstream_error
    send_chunk-ChatSettles next accepts (ok none, converter) h = h converter
    send_chunk-ChatSettles next zero (ok (some chunk), converter) h = stop_chat-ChatSettles canceled
    send_chunk-ChatSettles next (suc _) (ok (some chunk), converter) h =
        prepend-ChatSettles s.request.request_id (chat_sse_bytes chunk ∷ []) (next converter)
          (h converter)

    forward_event-ChatSettles :
        (next : ChatStreamConverter → Option ChatForwarded) (converter : ChatStreamConverter)
        (accepts : ℕ) (event : SseEvent) (terminal : Option TerminalEvent) (value : Option Value)
        → ((converter : ChatStreamConverter) → ChatSettles s.request.request_id (next converter))
        → ChatSettles s.request.request_id (
            forward_event
              (calm s.first)
              (calm s.second)
              rates
              (opened s.request)
              s.ledger
              next
              converter
              accepts
              event
              terminal
              value)
    forward_event-ChatSettles next converter accepts event (some terminal) value h =
        settle_chat-ChatSettles converter terminal accepts
    forward_event-ChatSettles next converter accepts event none none h = h converter
    forward_event-ChatSettles next converter accepts event none (some value) h =
        send_chunk-ChatSettles next accepts (convert_event value converter) h

    forward_chat_events-ChatSettles :
        (converter : ChatStreamConverter) (arrivals : List ChatArrival)
        → ChatSettles s.request.request_id (
            forward_chat_events
              (calm s.first)
              (calm s.second)
              rates
              (opened s.request)
              s.ledger
              converter
              arrivals)
    unfolding forward_chat_events
    forward_chat_events-ChatSettles converter [] = stop_chat-ChatSettles canceled
    forward_chat_events-ChatSettles converter (chat_stopped ∷ rest) = stop_chat-ChatSettles canceled
    forward_chat_events-ChatSettles converter (chat_read (err _) _ ∷ rest) =
        stop_chat-ChatSettles upstream_error
    forward_chat_events-ChatSettles converter (chat_read (ok eof) _ ∷ rest) =
        stop_chat-ChatSettles upstream_error
    forward_chat_events-ChatSettles converter (chat_read (ok (read_event event)) accepts ∷ rest) =
        forward_event-ChatSettles
          (λ after.
            forward_chat_events (calm s.first) (calm s.second) rates (opened s.request) s.ledger
              after rest)
          converter accepts event event.terminal (from_str event.text)
          (λ after. forward_chat_events-ChatSettles after rest)

    -- Whatever the reader yields, however it ends, and whatever the client does, the relay of a chat
    -- completion returns, with its handle finalized and its row closed; the store answers, and no
    -- other task commits in between.
    pub forward_chat_finalizes :
        (include_usage : Bool) (arrivals : List ChatArrival)
        → ChatSettles s.request.request_id (
            forward_chat_stream
              (calm s.first)
              (calm s.second)
              rates
              (opened s.request)
              s.ledger
              include_usage
              arrivals)
    unfolding forward_chat_stream
    forward_chat_finalizes include_usage arrivals =
        forward_chat_events-ChatSettles (new_converter include_usage) arrivals
