-- ===== src/Http/Settled.antt =====
-- The relay of src/http_api.rs settles its request.
use codex_api.Common.{
  ℕ, ℤ, ◌≡◌, refl, inl, inr, Bool, true, false, Option, none, some, List, [], ◌∷◌, String, Result,
  ok, err, Result-cases, Option-cases, map_option,
}
use codex_api.Json.{Json}
use codex_api.Store.Decimals.{Decimals}
use codex_api.Store.Times.{Times}
use codex_api.Store.Types.{FinalStatus, ModelRates, upstream_error, canceled}
use codex_api.Store.Ledger.{Ledger, select_started}
use codex_api.Store.Cost.{timestamp_ms}
use codex_api.Store.Invariant.{IsValid}
use codex_api.Terminal.Event.{TerminalEvent, parse_terminal_payload}
use codex_api.Terminal.Capacity.{retryable_capacity_payload}
use codex_api.Terminal.Retry.{retryable_capacity_payload_total}
use codex_api.Pending.Handle.{opened, finalized, OpenRequest, finish, take_open}
use codex_api.Pending.Closing.{calm, finalize_nothing_closes, finish_terminal_closes}
use codex_api.Upstream.Messages.{text, binary, ping, pong, frame, close, message, failed, ended}
use codex_api.Http.Relay.{
  Arrival, stopped, arrived, read_event, add_item, Forwarded, give_up, settled, settle_terminal,
  relayed, final_status, billable_usage, Relayed, ends, goes_on, relay_text, also_sent, after_text,
  forward_websocket_responses_stream,
}
use codex_api.Http.Restored.{restore_output-some}

module _ ⦃J : Json⦄ ⦃D : Decimals⦄ ⦃T : Times⦄ where
  open J use {Value}
  open T use {OffsetDateTime}

  -- The relay came to its end, and the row of the request is closed.
  abbrev pub Settles : ℕ → Option Forwarded → Type 0
  Settles id none = ⊥
  Settles id (some r) = (r.handle ≡ finalized) × (select_started id r.ledger.rows ≡ none)

  also_sent-Settles :
      (id : ℕ) (bytes : String) (r : Option Forwarded)
      → Settles id r
      → Settles id (also_sent bytes r)
  also_sent-Settles id bytes none s = elim s [ ]
  also_sent-Settles id bytes (some r) s = s

  -- What the relay of one request meets: a store that answers and clocks in range.
  pub record Settling : Type 0 where
    pub request : OpenRequest
    pub first : OffsetDateTime
    pub second : OffsetDateTime
    pub first_ms : ℤ
    pub second_ms : ℤ
    pub ledger : Ledger
    pub first_clock : timestamp_ms first ≡ ok first_ms
    pub second_clock : timestamp_ms second ≡ ok second_ms
    pub valid : IsValid ledger

  module _ (s : Settling) where
    give_up-Settles :
        (status : FinalStatus)
        → Settles s.request.request_id (give_up (calm s.first) status (opened s.request) s.ledger)
    unfolding give_up finish take_open
    give_up-Settles status = (
      refl,
      finalize_nothing_closes s.request.request_id status (some 200) s.first s.first_ms s.ledger
          s.valid s.first_clock refl,
    )

    settle_terminal-Settles :
        (rates : ModelRates) (items : List Value) (payload : Value) (terminal : TerminalEvent)
        (bytes : String)
        → parse_terminal_payload payload ≡ ok (some terminal)
        → Settles s.request.request_id (
            settle_terminal
              (calm s.first)
              (calm s.second)
              rates
              items
              terminal
              bytes
              (opened s.request)
              s.ledger)
    unfolding settle_terminal
    settle_terminal-Settles rates items payload terminal bytes h =
        let (restored, p) = restore_output-some payload terminal items h in
        let (result, after, q, closed) =
          finish_terminal_closes s.request (true, true) s.first s.second s.second_ms
            (final_status restored.kind) 200 200
            (map_option (λ usage. billable_usage usage rates) restored.usage) s.ledger s.valid
            s.second_clock refl in
        rw (p, settle_terminal) (rw q (settled-Settles restored bytes result after closed))
      where
        settled-Settles :
            (restored : TerminalEvent) (bytes : String) (result : Result (Unit {0}) (Unit {0}))
            (after : Ledger)
            → select_started s.request.request_id after.rows ≡ none
            → Settles s.request.request_id
                (settled restored bytes (some (result, finalized, after)))
        settled-Settles restored bytes (ok _) after closed = (refl, closed)
        settled-Settles restored bytes (err _) after closed = (refl, closed)

    module _ (is_http_date : List ℕ → Bool) where
      -- What one text leads to: the request is settled, or the relay goes on.
      abbrev TextSettles : Relayed is_http_date → Type 0
      TextSettles (ends r) = Settles s.request.request_id r
      TextSettles (goes_on _ _) = Unit

      relay_text-Settles :
          (rates : ModelRates) (items : List Value) (received : String)
          → TextSettles (
              relay_text is_http_date
                (calm s.first)
                (calm s.second)
                rates
                items
                received
                (opened s.request)
                s.ledger)
      unfolding relay_text
      relay_text-Settles rates items received = elim (Option-cases (read_event received)) [
        | inl p ↦ rw (p, relay_text) (give_up-Settles upstream_error)
        | inr (e, p) ↦ elim (Result-cases (parse_terminal_payload e.0)) [
          | inl (_, q) ↦ rw (p, relay_text) (rw q (give_up-Settles upstream_error))
          | inr (none, q) ↦ rw (p, relay_text) (rw q tt)
          | inr (some terminal, q) ↦
              elim (Option-cases (retryable_capacity_payload is_http_date terminal)) [
                | inl r ↦ absurd (retryable_capacity_payload_total is_http_date terminal r)
                | inr (rewritten, r) ↦
                    rw (p, relay_text)
                      (rw q (
                        rw r (
                          settle_terminal-Settles rates (add_item e.1 e.0 items) e.0 terminal
                            (relayed e.1 received rewritten) q)))
              ]
        ]
      ]

      after_text-Settles :
          (next : List Value → Option Forwarded) (accepts : Bool) (r : Relayed is_http_date)
          → TextSettles r
          → ((seen : List Value) → Settles s.request.request_id (next seen))
          → Settles s.request.request_id (
              after_text is_http_date next
                (give_up (calm s.first) canceled (opened s.request) s.ledger)
                accepts
                r)
      after_text-Settles next accepts (ends r) t h = t
      after_text-Settles next true (goes_on seen bytes) t h =
          also_sent-Settles s.request.request_id bytes (next seen) (h seen)
      after_text-Settles next false (goes_on seen bytes) t h = give_up-Settles canceled

      -- Whatever the socket yields, however it ends, and whatever the client does, the relay of a
      -- Responses request returns, with its handle finalized and its row closed; the store answers,
      -- and no other task commits in between.
      pub forward_finalizes :
          (rates : ModelRates) (items : List Value) (arrivals : List Arrival)
          → Settles s.request.request_id (
              forward_websocket_responses_stream is_http_date
                (calm s.first)
                (calm s.second)
                rates
                (opened s.request)
                s.ledger
                items
                arrivals)
      unfolding forward_websocket_responses_stream
      forward_finalizes rates items [] = give_up-Settles canceled
      forward_finalizes rates items (stopped ∷ rest) = give_up-Settles canceled
      forward_finalizes rates items (arrived failed _ _ ∷ rest) = give_up-Settles canceled
      forward_finalizes rates items (arrived ended _ _ ∷ rest) = give_up-Settles canceled
      forward_finalizes rates items (arrived (message (text received)) _ accepts ∷ rest) =
          after_text-Settles
            (λ seen.
              forward_websocket_responses_stream is_http_date (calm s.first) (calm s.second) rates
                (opened s.request) s.ledger seen rest)
            accepts
            (relay_text is_http_date (calm s.first) (calm s.second) rates items received
              (opened s.request) s.ledger)
            (relay_text-Settles rates items received) (λ seen. forward_finalizes rates seen rest)
      forward_finalizes rates items (arrived (message ping) true _ ∷ rest) =
          forward_finalizes rates items rest
      forward_finalizes rates items (arrived (message ping) false _ ∷ rest) =
          give_up-Settles upstream_error
      forward_finalizes rates items (arrived (message pong) _ _ ∷ rest) =
          forward_finalizes rates items rest
      forward_finalizes rates items (arrived (message (close _)) _ _ ∷ rest) =
          give_up-Settles upstream_error
      forward_finalizes rates items (arrived (message binary) _ _ ∷ rest) =
          give_up-Settles upstream_error
      forward_finalizes rates items (arrived (message frame) _ _ ∷ rest) =
          give_up-Settles upstream_error
