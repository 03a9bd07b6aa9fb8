-- ===== src/Ws/Ended.antt =====
-- However a WebSocket session (src/ws.rs) ends, its rows are closed.
use codex_api.Common.{
  ℕ, ◌≡◌, ◌≢◌, refl, sym, ap, subst, ◌⊎◌, inl, inr, Bool, false, not, ◌||◌, Option, none, some,
  is_some, List, String, ok, err, nat_eq, Bool-cases, Option-cases, Result-cases, map_option,
}
use codex_api.Json.{Json}
use codex_api.Store.Decimals.{Decimals}
use codex_api.Store.Times.{Times}
use codex_api.Store.Types.{FinalStatus, upstream_error, canceled, internal_error, StoreError}
use codex_api.Store.Ledger.{select_started}
use codex_api.Store.Requests.{Outcome}
use codex_api.Store.Invariant.{IsValid}
use codex_api.Store.Alone.{ClosedBut}
use codex_api.Terminal.Event.{TerminalEvent, parse_terminal_payload}
use codex_api.Terminal.Retry.{retryable_capacity_payload_total}
use codex_api.Pending.Handle.{finalize}
use codex_api.Upstream.Messages.{Message, text, binary, ping, pong, frame, close}
use codex_api.Http.Relay.{final_status, billable_usage, read_event, rewritten_of}
use codex_api.Ws.Session.{
  ConnectionEnd, shutdown, client_protocol_error, upstream_failure, internal_failure,
  accounting_failure, client_disconnect, upstream_closed, normal_close, InFlight, Connection,
  Around, send_client, send_upstream,
}
use codex_api.Ws.Handlers.{
  after_settling, settle_active, relay, handle_upstream_text, handle_upstream, finalize_active,
  finish,
}
use codex_api.Ws.Rows.{finalize-IsValid, close-ClosedBut, settle-ClosedBut}
use codex_api.Ws.Closed.{
  owns, IsSettled, EndsWith, Settled, HandledWell, CalmAround, send_client-Settled,
}

module _ ⦃J : Json⦄ ⦃D : Decimals⦄ ⦃T : Times⦄ where
  open J use {Value}

  after_settling-Settled :
      (around : Around) (request : InFlight) (m : Message) (c : Connection) (o : Outcome (Unit {0}))
      → CalmAround around
      → c.active ≡ none
      → IsValid o.1
      → ClosedBut (λ k. false || nat_eq request.request_id k) c.ledger
      → IsValid c.ledger
      → (ClosedBut (λ k. false) o.1 ⊎ ((e : StoreError) × (o ≡ (err e, c.ledger))))
      → Settled (after_settling around request m c o)
  after_settling-Settled around request m c (ok u, l) q idle v k w (inl closed) =
      send_client-Settled around m (record c { ledger = l })
        (record { valid = v; closed = λ j a. closed j refl })
  after_settling-Settled around request m c (ok u, l) q idle v k w (inr (e, p)) = absurd cc
  after_settling-Settled around request m c (err e, l) q idle v k w (inl closed) = (
    record {
      valid = finalize-IsValid around.second request.request_id upstream_error none l q.second v;
      closed = λ j a.
          close-ClosedBut around.second request.request_id upstream_error (λ i. false) l q.second v
            (λ i b. closed i refl) j refl;
    },
    idle,
  )
  after_settling-Settled around request m c (err e, l) q idle v k w (inr (_, p)) = (
    record {
      valid = finalize-IsValid around.second request.request_id upstream_error none l q.second v;
      closed = λ j a.
          close-ClosedBut around.second request.request_id upstream_error (λ i. false) l q.second v
            (subst (ClosedBut (λ i. false || nat_eq request.request_id i))
              (sym (ap (λ (x : Outcome (Unit {0})). x.1) p)) k)
            j refl;
    },
    idle,
  )

  settle_active-Settled :
      (around : Around) (terminal : TerminalEvent) (m : Message) (c : Connection)
      → CalmAround around
      → IsSettled c
      → Settled (settle_active around terminal m c)
  unfolding settle_active
  settle_active-Settled around terminal m c q s = elim (Option-cases c.active) [
    | inl p ↦ rw (p, settle_active) (s, tt)
    | inr (request, p) ↦
        let usage = map_option (λ u. billable_usage u request.rates) terminal.usage in
        let status = final_status terminal.kind in
        let k : ClosedBut (λ k. false || nat_eq request.request_id k) c.ledger =
          subst (λ (a : Option InFlight). ClosedBut (owns a) c.ledger) p s.closed in
        rw (p, settle_active)
          (after_settling-Settled around request m (record c { active = none })
            (finalize around.first request.request_id status none usage c.ledger) q refl
            (finalize-IsValid around.first request.request_id status usage c.ledger q.first s.valid)
            k s.valid
            (settle-ClosedBut around.first request.request_id status usage (λ i. false) c.ledger
              q.first k))
  ]

  relay-HandledWell :
      (around : Around) (received : String) (terminal : Option TerminalEvent)
      (rewritten : Option (Option Value)) (c : Connection)
      → CalmAround around
      → IsSettled c
      → rewritten ≢ none
      → HandledWell (relay around received terminal rewritten c)
  relay-HandledWell around received terminal none c q s n = absurd (n refl)
  relay-HandledWell around received none (some rewritten) c q s n = send_client-Settled around _ c s
  relay-HandledWell around received (some terminal) (some rewritten) c q s n =
      settle_active-Settled around terminal _ c q s

  module _ (is_http_date : List ℕ → Bool) where
    rewritten_total : (terminal : Option TerminalEvent) → rewritten_of is_http_date terminal ≢ none
    rewritten_total none h = cc
    rewritten_total (some terminal) h = retryable_capacity_payload_total is_http_date terminal h

    handle_upstream_text-HandledWell :
        (around : Around) (received : String) (c : Connection)
        → CalmAround around
        → IsSettled c
        → HandledWell (handle_upstream_text is_http_date around received c)
    unfolding handle_upstream_text
    handle_upstream_text-HandledWell around received c q s =
        elim (Option-cases (read_event received)) [
          | inl p ↦ rw (p, handle_upstream_text) (s, tt)
          | inr (e, p) ↦ elim (Result-cases (parse_terminal_payload e.0)) [
            | inl (_, r) ↦ rw (p, handle_upstream_text) (rw r (s, tt))
            | inr (terminal, r) ↦
                rw (p, handle_upstream_text)
                  (rw r
                    (relay-HandledWell around received terminal _ c q s (rewritten_total terminal)))
          ]
        ]

    pub handle_upstream-HandledWell :
        (around : Around) (m : Message) (c : Connection)
        → CalmAround around
        → IsSettled c
        → HandledWell (handle_upstream is_http_date around m c)
    unfolding handle_upstream
    handle_upstream-HandledWell around (text received) c q s =
        handle_upstream_text-HandledWell around received c q s
    handle_upstream-HandledWell around binary c q s = (s, tt)
    handle_upstream-HandledWell around frame c q s = (s, tt)
    handle_upstream-HandledWell around ping c q s = send_client-Settled around ping c s
    handle_upstream-HandledWell around pong c q s = send_client-Settled around pong c s
    handle_upstream-HandledWell around (close received) c q s = (s, tt)

  -- No row is open.
  abbrev pub AllClosed : Connection → Type 0
  AllClosed c = IsValid c.ledger × ((k : ℕ) → select_started k c.ledger.rows ≡ none)

  finalize_active-AllClosed :
      (around : Around) (status : FinalStatus) (c : Connection)
      → CalmAround around
      → IsSettled c
      → AllClosed (finalize_active around status c)
  unfolding finalize_active
  finalize_active-AllClosed around status c q s = elim (Option-cases c.active) [
    | inl p ↦ rw (p, finalize_active) (s.valid, λ k. s.closed k (rw p refl))
    | inr (request, p) ↦
        rw (p, finalize_active)
          (
            finalize-IsValid around.first request.request_id status none c.ledger q.first s.valid,
            λ k.
                close-ClosedBut around.first request.request_id status (λ i. false) c.ledger q.first
                  s.valid (subst (λ (a : Option InFlight). ClosedBut (owns a) c.ledger) p s.closed)
                  k refl,
          )
  ]

  -- Sending leaves the ledger as it is.
  send_client-AllClosed :
      (around : Around) (m : Message) (c : Connection)
      → AllClosed c
      → AllClosed (send_client around m c).1
  unfolding send_client
  send_client-AllClosed around m c s = elim (Bool-cases around.client_takes) [
    | inl p ↦ rw (p, send_client) s
    | inr p ↦ rw (p, send_client) s
  ]

  send_upstream-AllClosed :
      (around : Around) (m : Message) (c : Connection)
      → AllClosed c
      → AllClosed (send_upstream around m c).1
  unfolding send_upstream
  send_upstream-AllClosed around m c s = elim (Bool-cases around.upstream_takes) [
    | inl p ↦ rw (p, send_upstream) s
    | inr p ↦ rw (p, send_upstream) s
  ]

  pub finish-AllClosed :
      (around : Around) (end : ConnectionEnd) (c : Connection)
      → CalmAround around
      → IsSettled c
      → EndsWith end c
      → AllClosed (finish around end c)
  unfolding finish
  finish-AllClosed around shutdown c q s e =
      send_client-AllClosed around _ _
        (send_upstream-AllClosed around _ _ (finalize_active-AllClosed around canceled c q s))
  finish-AllClosed around (client_disconnect received) c q s e =
      send_upstream-AllClosed around _ _ (finalize_active-AllClosed around canceled c q s)
  finish-AllClosed around client_protocol_error c q s e =
      send_client-AllClosed around _ _
        (send_upstream-AllClosed around _ _ (finalize_active-AllClosed around canceled c q s))
  finish-AllClosed around upstream_failure c q s e =
      send_client-AllClosed around _ _ (finalize_active-AllClosed around upstream_error c q s)
  finish-AllClosed around (upstream_closed received) c q s e =
      elim (Bool-cases (is_some c.active || not (normal_close received))) [
        | inl p ↦
            rw (p, finish)
              (send_client-AllClosed around _ _
                (finalize_active-AllClosed around upstream_error c q s))
        | inr p ↦
            rw (p, finish)
              (send_client-AllClosed around _ c (s.valid, λ k. s.closed k (idle c.active k p)))
      ]
    where
      idle :
          (active : Option InFlight) (k : ℕ)
          → (is_some active || not (normal_close received)) ≡ false
          → owns active k ≡ false
      idle none k p = refl
      idle (some request) k p = absurd cc
  finish-AllClosed around internal_failure c q s e =
      send_client-AllClosed around _ _
        (send_upstream-AllClosed around _ _ (finalize_active-AllClosed around internal_error c q s))
  finish-AllClosed around accounting_failure c q s e =
      send_upstream-AllClosed around _ _
        (send_client-AllClosed around _ c (s.valid, λ k. s.closed k (rw e refl)))
