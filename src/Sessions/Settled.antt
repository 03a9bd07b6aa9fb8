-- ===== src/Sessions/Settled.antt =====
-- Every job of a session (src/http_api/responses_session.rs) closes the row of its request.
use codex_api.Common.{
  ℕ, ℤ, not, ◌≡◌, refl, subst, inl, inr, Bool, true, false, Option, none, some, List, [], String,
  Result, ok, err, Bool-cases, if◌then◌else◌,
}
use codex_api.Json.{Json}
use codex_api.Auth.Headers.{Headers}
use codex_api.Store.Decimals.{Decimals}
use codex_api.Store.Times.{Times}
use codex_api.Store.Types.{ModelRates}
use codex_api.Store.Ledger.{Ledger, select_started}
use codex_api.Store.Cost.{timestamp_ms}
use codex_api.Terminal.Event.{TerminalEvent}
use codex_api.Errors.Api.{ApiError, shutdown}
use codex_api.Pending.Handle.{
  Handle, opened, finalized, OpenRequest, response_started, finish, drop, take_open,
}
use codex_api.Pending.Closing.{calm, in_range, finalize_nothing_closes, drop_closes}
use codex_api.Http.Relay.{Forwarded, forward_websocket_responses_stream}
use codex_api.Http.Settled.{Settling, Settles, forward_finalizes}
use codex_api.Sessions.Actor.{Snapshot, Turn, Actor, Prepared, prepare}
use codex_api.Sessions.Respond.{
  Meets, Responded, TurnEnd, turn_canceled, left_at, disconnected, ends_with, fail_job,
  failure_status, cancel_job, after_terminal, after_relay, relay_job, after_prepare, respond, Race,
  prepares, stops, client_leaves,
}
use codex_api.Sessions.Refusals.{Fits, prepare-Fits}

module _ ⦃J : Json⦄ ⦃H : Headers⦄ ⦃D : Decimals⦄ ⦃T : Times⦄ where
  open J use {Value}
  open T use {OffsetDateTime}

  -- The job came to its end, and the row of its request is closed.
  abbrev pub Closes : ℕ → Option Responded → Type 0
  Closes id none = ⊥
  Closes id (some r) = (r.handle ≡ finalized) × (select_started id r.ledger.rows ≡ none)

  -- What is met by a job whose handle is dropped in a store that answers, with the clock in range.
  pub record Dropping : Type 0 where
    pub now : OffsetDateTime
    pub ms : ℤ
    pub clock : timestamp_ms now ≡ ok ms

  module _ (s : Settling) (d : Dropping) where
    -- A store that answers, with no commit of another task in between.
    abbrev pub in_calm : Meets → Meets
    in_calm meets = record meets {
      first = calm s.first;
      second = calm s.second;
      dropped = calm d.now;
    }

    abbrev id_of : ℕ
    id_of = s.request.request_id

    finalized-Closes :
        (meets : Meets) (end : TurnEnd) (answered : Option (Prepared × String × List Value))
        (actor : Actor) (l : Ledger)
        → select_started id_of l.rows ≡ none
        → Closes id_of (some (ends_with (in_calm meets) end answered actor finalized l))
    unfolding drop
    finalized-Closes meets end answered actor l h = (refl, h)

    opened-Closes :
        (meets : Meets) (actor : Actor) (o : OpenRequest)
        → o.request_id ≡ id_of
        → in_range o.drop_http_status ≡ true
        → Closes id_of (cancel_job (in_calm meets) actor (opened o) s.ledger)
    unfolding drop
    opened-Closes meets actor o e h = (
      refl,
      subst (λ i. select_started i (drop (calm d.now) (opened o) s.ledger).1.rows ≡ none) e
          (drop_closes o d.now d.ms s.ledger s.valid d.clock h),
    )

    fail_job-Closes :
        (meets : Meets) (stopping : Bool) (error : ApiError) (actor : Actor)
        → in_range (some error.status) ≡ true
        → Closes id_of (fail_job (in_calm meets) stopping error actor (opened s.request) s.ledger)
    unfolding fail_job finish take_open drop
    fail_job-Closes meets stopping error actor h = (
      refl,
      finalize_nothing_closes id_of (failure_status error stopping) (some error.status) s.first
          s.first_ms s.ledger s.valid s.first_clock h,
    )

    module _ (is_http_date : List ℕ → Bool) (size : Snapshot → ℕ) (rates : ModelRates) where
      after_terminal-Closes :
          (meets : Meets) (actor : Actor) (p : Prepared) (found : Option (TerminalEvent × String))
          (handle : Handle) (l : Ledger)
          → handle ≡ finalized
          → select_started id_of l.rows ≡ none
          → Closes id_of
              (some (after_terminal is_http_date size rates (in_calm meets) actor p found handle l))
      unfolding drop
      after_terminal-Closes meets actor p none handle l e h =
          rw e (finalized-Closes meets turn_canceled none (disconnected actor) l h)
      after_terminal-Closes meets actor p (some (terminal, bytes)) handle l e h =
          elim (Bool-cases meets.reserves) [
            | inl q ↦ rw (e, q) (refl, h)
            | inr q ↦ rw (e, q) (finalized-Closes meets turn_canceled none (disconnected actor) l h)
          ]

      after_relay-Closes :
          (meets : Meets) (actor : Actor) (p : Prepared) (r : Option Forwarded)
          → Settles id_of r
          → Closes id_of (after_relay is_http_date size rates (in_calm meets) actor p r)
      after_relay-Closes meets actor p none c = c
      after_relay-Closes meets actor p (some r) c =
          after_terminal-Closes meets actor p r.terminal r.handle r.ledger c.0 c.1

      -- The request once its response has started.
      abbrev started : OpenRequest
      started = record s.request { drop_http_status = some 200 }

      relay_job-Closes :
          (meets : Meets) (actor : Actor) (p : Prepared)
          → Closes id_of
              (relay_job is_http_date size rates (in_calm meets) actor p (opened started) s.ledger)
      unfolding relay_job
      relay_job-Closes meets actor p = go meets.waits meets.interrupted
        where
          canceled : Closes id_of (cancel_job (in_calm meets) actor (opened started) s.ledger)
          canceled = opened-Closes meets actor started refl refl

          go :
              (waits interrupted : Bool)
              → Closes id_of (
                  if not waits
                  then cancel_job (in_calm meets) actor (opened started) s.ledger
                  else if interrupted
                  then cancel_job (in_calm meets) actor (opened started) s.ledger
                  else after_relay is_http_date size rates (in_calm meets) actor p (
                      forward_websocket_responses_stream is_http_date
                        (calm s.first)
                        (calm s.second)
                        rates
                        (opened started)
                        s.ledger
                        []
                        meets.arrivals))
          go false interrupted = canceled
          go true true = canceled
          go true false = after_relay-Closes meets actor p _ (
              forward_finalizes (record s { request = started }) is_http_date rates []
                meets.arrivals)

      after_prepare-Closes :
          (meets : Meets) (r : Actor × Result ApiError Prepared)
          → Fits r.1
          → Closes id_of
              (after_prepare is_http_date size rates (in_calm meets) (opened s.request) s.ledger r)
      unfolding response_started
      after_prepare-Closes meets (actor, err e) f = fail_job-Closes meets meets.stopping e actor f
      after_prepare-Closes meets (actor, ok p) f = relay_job-Closes meets actor p

      shutdown-in_range : in_range (some shutdown.status) ≡ true
      unfolding shutdown
      shutdown-in_range = refl

      -- Whatever a job of a session meets, as the server stops, the client goes, the preparation
      -- fails or the relay ends in whatever way, `respond` returns, with the handle finalized and
      -- the row of the request closed; the store answers, no other task commits in between, and the
      -- status that the handle would be dropped with is one of HTTP.
      pub respond_finalizes :
          (meets : Meets) (actor : Actor) (turn : Turn)
          → in_range s.request.drop_http_status ≡ true
          → Closes s.request.request_id (
              respond is_http_date size rates
                (in_calm meets)
                actor
                turn
                (opened s.request)
                s.ledger)
      unfolding respond
      respond_finalizes meets actor turn h = go meets.race
        where
          go :
              (race : Race)
              → Closes id_of (elim race [
                | stops stage ↦
                    fail_job
                      (in_calm meets)
                      true
                      shutdown
                      (left_at stage meets.peer actor turn)
                      (opened s.request)
                      s.ledger
                | client_leaves stage ↦
                    cancel_job
                      (in_calm meets)
                      (left_at stage meets.peer actor turn)
                      (opened s.request)
                      s.ledger
                | prepares ↦
                    after_prepare is_http_date size rates
                      (in_calm meets)
                      (opened s.request)
                      s.ledger
                      (prepare meets.peer actor turn)
              ])
          go (stops stage) =
              fail_job-Closes meets true shutdown (left_at stage meets.peer actor turn)
                shutdown-in_range
          go (client_leaves stage) =
              opened-Closes meets (left_at stage meets.peer actor turn) s.request refl h
          go prepares =
              after_prepare-Closes meets (prepare meets.peer actor turn)
                (prepare-Fits meets.peer actor turn)
