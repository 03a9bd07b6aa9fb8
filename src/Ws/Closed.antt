-- ===== src/Ws/Closed.antt =====
-- A WebSocket session (src/ws.rs) has at most one open row, and leaves none behind.
use codex_api.Common.{
  ℕ, ◌≡◌, ◌≢◌, refl, inl, inr, Bool, false, ◌||◌, Option, none, some, Result, ok, err, nat_eq,
  Bool-cases, Option-cases,
}
use codex_api.Json.{Json}
use codex_api.Store.Decimals.{Decimals}
use codex_api.Store.Times.{Times}
use codex_api.Store.Types.{
  rejected, upstream_error, EffectiveModel, ModelRates, Admission, admitted, weekly_quota_exceeded,
}
use codex_api.Store.Requests.{Outcome}
use codex_api.Store.Invariant.{IsValid, record_rejection-IsValid}
use codex_api.Store.Alone.{ClosedBut, OpensFor, record_rejection-ClosedBut}
use codex_api.Config.Models.{apply_effective_request}
use codex_api.Auth.Authenticate.{ClientIdentity}
use codex_api.Upstream.Messages.{Message}
use codex_api.Upstream.Lite.{UpstreamWebSocketError}
use codex_api.Ws.Session.{
  ConnectionEnd, accounting_failure, InFlight, Connection, Around, send_client, send_upstream,
  rejection, after_rejection, reject, lite_model, fail_turn, after_send, send_turn, start_turn,
  after_refusal, refuse_turn, after_admission,
}
use codex_api.Ws.Rows.{Calm, finalize-IsValid, close-ClosedBut}

module _ ⦃D : Decimals⦄ where
  -- The request in flight.
  abbrev pub owns : Option InFlight → ℕ → Bool
  owns none k = false
  owns (some request) k = nat_eq request.request_id k

  pub record IsSettled (c : Connection) : Type 0 where
    pub valid : IsValid c.ledger
    pub closed : ClosedBut (owns c.active) c.ledger

  -- After an accounting failure the request in flight was already taken.
  abbrev pub EndsWith : ConnectionEnd → Connection → Type 0
  EndsWith accounting_failure c = c.active ≡ none
  EndsWith _ c = Unit

  abbrev pub Settled : Option ConnectionEnd × Connection → Type 0
  Settled (none, c) = IsSettled c
  Settled (some end, c) = IsSettled c × EndsWith end c

  abbrev pub HandledWell : Option (Option ConnectionEnd × Connection) → Type 0
  HandledWell none = ⊥
  HandledWell (some r) = Settled r

module _ ⦃J : Json⦄ ⦃D : Decimals⦄ ⦃T : Times⦄ where
  open J use {Value}

  pub record CalmAround (around : Around) : Type 0 where
    pub first : Calm around.first
    pub second : Calm around.second

  pub send_client-Settled :
      (around : Around) (m : Message) (c : Connection)
      → IsSettled c
      → Settled (send_client around m c)
  unfolding send_client
  send_client-Settled around m c s = elim (Bool-cases around.client_takes) [
    | inl p ↦ rw (p, send_client) (record { valid = s.valid; closed = s.closed })
    | inr p ↦ rw (p, send_client) (s, tt)
  ]

  pub send_upstream-Settled :
      (around : Around) (m : Message) (c : Connection)
      → IsSettled c
      → Settled (send_upstream around m c)
  unfolding send_upstream
  send_upstream-Settled around m c s = elim (Bool-cases around.upstream_takes) [
    | inl p ↦ rw (p, send_upstream) (record { valid = s.valid; closed = s.closed })
    | inr p ↦ rw (p, send_upstream) (s, tt)
  ]

  rejected_row-Settled :
      (around : Around) (error : Value) (c : Connection) (o : Outcome ℕ)
      → IsValid o.1
      → ClosedBut (owns c.active) o.1
      → Settled (after_rejection around error c o)
  rejected_row-Settled around error c (err e, l) v k = (record { valid = v; closed = k }, tt)
  rejected_row-Settled around error c (ok id, l) v k =
      send_client-Settled around _ (record c { ledger = l }) (record { valid = v; closed = k })

  pub reject-Settled :
      (around : Around) (identity : ClientIdentity) (value error : Value) (c : Connection)
      → IsSettled c
      → Settled (reject around identity value error c)
  unfolding reject rejection
  reject-Settled around identity value error c s =
      rejected_row-Settled around error c _
        (record_rejection-IsValid around.first.db.1 _ _ _ none around.first.now c.ledger s.valid)
        (record_rejection-ClosedBut around.first.db.1 _ _ _ none around.first.now (owns c.active)
          c.ledger s.closed)

  -- A turn that fails closes its row.
  fail_turn-Settled :
      (around : Around) (id : ℕ) (c : Connection)
      → CalmAround around
      → IsValid c.ledger
      → ClosedBut (λ k. owns c.active k || nat_eq id k) c.ledger
      → Settled (fail_turn around id c)
  fail_turn-Settled around id c q v k = (
    record {
      valid = finalize-IsValid around.second id upstream_error none c.ledger q.second v;
      closed =
          close-ClosedBut around.second id upstream_error (owns c.active) c.ledger q.second v k;
    },
    tt,
  )

  after_send-Settled :
      (around : Around) (id : ℕ) (rates : ModelRates) (m : Message) (c : Connection)
      → CalmAround around
      → c.active ≡ none
      → IsValid c.ledger
      → ClosedBut (λ k. owns c.active k || nat_eq id k) c.ledger
      → Settled (after_send around id rates (send_upstream around m c))
  unfolding send_upstream
  after_send-Settled around id rates m c q idle v k = elim (Bool-cases around.upstream_takes) [
    | inl p ↦ rw (p, send_upstream) (record { valid = v; closed = λ j a. k j (rw (idle, a) refl) })
    | inr p ↦ rw (p, send_upstream) (fail_turn-Settled around id c q v k)
  ]

  send_turn-Settled :
      (around : Around) (id : ℕ) (rates : ModelRates) (c : Connection)
      (r : Result UpstreamWebSocketError Value)
      → CalmAround around
      → c.active ≡ none
      → IsValid c.ledger
      → ClosedBut (λ k. owns c.active k || nat_eq id k) c.ledger
      → Settled (send_turn around id rates c r)
  send_turn-Settled around id rates c (err e) q idle v k = fail_turn-Settled around id c q v k
  send_turn-Settled around id rates c (ok payload) q idle v k =
      after_send-Settled around id rates _ c q idle v k

  start_turn-HandledWell :
      (around : Around) (id : ℕ) (effective : EffectiveModel) (payload : Value) (c : Connection)
      → CalmAround around
      → c.active ≡ none
      → IsValid c.ledger
      → ClosedBut (λ k. owns c.active k || nat_eq id k) c.ledger
      → apply_effective_request payload effective ≢ none
      → HandledWell (start_turn around id effective payload c)
  unfolding start_turn
  start_turn-HandledWell around id effective payload c q idle v k applies =
      elim (Option-cases (apply_effective_request payload effective)) [
        | inl p ↦ absurd (applies p)
        | inr (body, p) ↦ elim (Option-cases (lite_model around)) [
          | inl r ↦ rw (p, start_turn) (rw r (fail_turn-Settled around id c q v k))
          | inr (model, r) ↦
              rw (p, start_turn) (rw r (send_turn-Settled around id effective.rates c _ q idle v k))
        ]
      ]

  refused-Settled :
      (around : Around) (c : Connection) (o : Outcome (Unit {0}))
      → IsValid o.1
      → ClosedBut (owns c.active) o.1
      → Settled (after_refusal around c o)
  refused-Settled around c (err e, l) v k = (record { valid = v; closed = k }, tt)
  refused-Settled around c (ok u, l) v k =
      send_client-Settled around _ (record c { ledger = l }) (record { valid = v; closed = k })

  refuse_turn-Settled :
      (around : Around) (id : ℕ) (c : Connection)
      → CalmAround around
      → IsValid c.ledger
      → ClosedBut (λ k. owns c.active k || nat_eq id k) c.ledger
      → Settled (refuse_turn around id c)
  unfolding refuse_turn
  refuse_turn-Settled around id c q v k =
      refused-Settled around c _
        (finalize-IsValid around.second id rejected none c.ledger q.second v)
        (close-ClosedBut around.second id rejected (owns c.active) c.ledger q.second v k)

  -- The admitted model can be written into the payload.
  abbrev pub Applies : Value → Outcome Admission → Type 0
  Applies payload (ok (admitted id effective), l) = apply_effective_request payload effective ≢ none
  Applies payload _ = Unit

  pub admitted-HandledWell :
      (around : Around) (payload : Value) (c : Connection) (o : Outcome Admission)
      → CalmAround around
      → IsValid o.1
      → OpensFor (owns c.active) o
      → Applies payload o
      → HandledWell (after_admission around payload c o)
  admitted-HandledWell around payload c (err e, l) q v k x = (record { valid = v; closed = k }, tt)
  admitted-HandledWell around payload c (ok weekly_quota_exceeded, l) q v k x =
      send_client-Settled around _ (record c { ledger = l }) (record { valid = v; closed = k })
  admitted-HandledWell around payload c (ok (admitted id effective), l) q v k x =
      elim (Option-cases c.active) [
        | inl p ↦ rw p (
            start_turn-HandledWell around id effective payload
              (record c { active = none; ledger = l }) q refl v (λ j a. k j (rw (p, a) refl)) x)
        | inr (request, p) ↦ rw p (
            refuse_turn-Settled around id (record c { active = some request; ledger = l }) q v
              (λ j a. k j (rw (p, a) refl)))
      ]
