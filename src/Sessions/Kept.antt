-- ===== src/Sessions/Kept.antt =====
-- A turn of a session (src/http_api/responses_session.rs) leaves the session as the upstream holds it.
use codex_api.Common.{
  ℕ, not, nat_eq, ◌≡◌, subst, inl, inr, Bool, true, false, Option, none, some, List, [], ◌++◌,
  String, str_eq, eq_refl, Result, ok, err, map_option, if◌then◌else◌, Option-cases, Bool-cases,
}
use codex_api.Json.{Json}
use codex_api.Auth.Headers.{Headers}
use codex_api.Store.Decimals.{Decimals}
use codex_api.Store.Times.{Times}
use codex_api.Store.Types.{ModelRates}
use codex_api.Store.Ledger.{Ledger}
use codex_api.Terminal.Event.{TerminalEvent}
use codex_api.Errors.Api.{ApiError, shutdown}
use codex_api.Pending.Handle.{Handle, response_started, finish}
use codex_api.Http.Relay.{Forwarded, forward_websocket_responses_stream}
use codex_api.Sessions.Actor.{Snapshot, Turn, Actor, Prepared, prepare}
use codex_api.Sessions.Respond.{
  Meets, Responded, disconnected, answer_of, remember, left_at, fail_job, failure_status,
  cancel_job, after_terminal, after_relay, relay_job, after_prepare, respond, Race, prepares, stops,
  client_leaves,
}
use codex_api.Sessions.Same.{Contexts, presented, Shown, Shown-append}
use codex_api.Sessions.Conversation.{Held, served, GivesFresh, Presents, prepare-Good}

module _ ⦃J : Json⦄ ⦃H : Headers⦄ where
  open J use {Value, Fields}

  -- What the upstream holds after an answer.
  abbrev pub learn : Contexts → Option (Prepared × String × List Value) → Contexts
  learn contexts none = contexts
  learn contexts (some (p, id, output)) = λ j.
      if str_eq id j
      then map_option (λ shown. shown ++ output) (presented contexts p.sent)
      else contexts j

  pub disconnected-Held : (contexts : Contexts) (actor : Actor) → Held contexts (disconnected actor)
  disconnected-Held contexts actor s _ c _ = absurd cc

  abbrev answered : Actor → Prepared → TerminalEvent → Option (Prepared × String × List Value)
  answered actor p terminal =
      map_option (λ answer. (p, answer.0, answer.1)) (answer_of actor terminal)

  remember-Held :
      (size : Snapshot → ℕ) (contexts : Contexts) (actor : Actor) (p : Prepared)
      (terminal : TerminalEvent)
      → Shown (presented contexts p.sent) p.input
      → Held (learn contexts (answered actor p terminal)) (remember size actor p terminal)
  unfolding remember
  remember-Held size contexts actor p terminal same =
      elim (Option-cases (answer_of actor terminal)) [
        | inl q ↦ rw (q, remember) (disconnected-Held contexts actor)
        | inr ((id, output), q) ↦
            rw (q, remember)
              (λ s a _ _.
                let latest : Snapshot = record {
                  response_id = id;
                  input = p.input ++ output;
                  parameters = p.parameters;
                } in
                let e : latest ≡ s = cc in
                subst
                  (λ (x : Snapshot).
                    Shown (learn contexts (some (p, id, output)) x.response_id) x.input)
                  e
                  (rw (eq_refl id) (Shown-append (presented contexts p.sent) p.input output same)))
      ]

module _ ⦃J : Json⦄ ⦃H : Headers⦄ ⦃D : Decimals⦄ ⦃T : Times⦄ where
  open J use {Value}

  -- What a turn leaves of the session, as the upstream holds it.
  abbrev pub Keeps : Contexts → Option Responded → Type 0
  Keeps contexts none = Unit
  Keeps contexts (some r) = Held (learn contexts r.answered) r.actor

  fail_job-Keeps :
      (contexts : Contexts) (meets : Meets) (stopping : Bool) (error : ApiError) (actor : Actor)
      (handle : Handle) (l : Ledger)
      → (nat_eq error.status 400 ≡ true → Held contexts actor)
      → Keeps contexts (fail_job meets stopping error actor handle l)
  unfolding fail_job
  fail_job-Keeps contexts meets stopping error actor handle l h =
      elim (Option-cases
        (finish meets.first (failure_status error stopping) (some error.status) none handle l)) [
          | inl q ↦ rw (q, fail_job) tt
          | inr (x, q) ↦ elim (Bool-cases (nat_eq error.status 400)) [
            | inl b ↦ rw (q, fail_job) (rw b (h b))
            | inr b ↦ rw (q, fail_job) (rw b (disconnected-Held contexts actor))
          ]
        ]

  module _ (is_http_date : List ℕ → Bool) (size : Snapshot → ℕ) (rates : ModelRates) where
    after_terminal-Keeps :
        (contexts : Contexts) (actor : Actor) (meets : Meets) (p : Prepared)
        (found : Option (TerminalEvent × String)) (handle : Handle) (l : Ledger)
        → Shown (presented contexts p.sent) p.input
        → Keeps contexts
            (some (after_terminal is_http_date size rates meets actor p found handle l))
    after_terminal-Keeps contexts actor meets p none handle l same =
        disconnected-Held contexts actor
    after_terminal-Keeps contexts actor meets p (some (terminal, bytes)) handle l same =
        elim (Bool-cases meets.reserves) [
          | inl q ↦ rw q (remember-Held size contexts actor p terminal same)
          | inr q ↦ rw q (disconnected-Held contexts actor)
        ]

    after_relay-Keeps :
        (contexts : Contexts) (actor : Actor) (meets : Meets) (p : Prepared) (r : Option Forwarded)
        → Shown (presented contexts p.sent) p.input
        → Keeps contexts (after_relay is_http_date size rates meets actor p r)
    after_relay-Keeps contexts actor meets p none same = tt
    after_relay-Keeps contexts actor meets p (some r) same =
        after_terminal-Keeps contexts actor meets p r.terminal r.handle r.ledger same

    relay_job-Keeps :
        (contexts : Contexts) (actor : Actor) (meets : Meets) (p : Prepared) (handle : Handle)
        (l : Ledger)
        → Shown (presented contexts p.sent) p.input
        → Keeps contexts (relay_job is_http_date size rates meets actor p handle l)
    unfolding relay_job
    relay_job-Keeps contexts actor meets p handle l same = go meets.waits meets.interrupted
      where
        go :
            (waits interrupted : Bool)
            → Keeps contexts (
                if not waits
                then cancel_job meets actor handle l
                else if interrupted
                then cancel_job meets actor handle l
                else after_relay is_http_date size rates meets actor p (
                    forward_websocket_responses_stream is_http_date meets.first meets.second rates
                      handle l [] meets.arrivals))
        go false interrupted = disconnected-Held contexts actor
        go true true = disconnected-Held contexts actor
        go true false = after_relay-Keeps contexts actor meets p _ same

    after_prepare-Keeps :
        (contexts : Contexts) (meets : Meets) (handle : Handle) (l : Ledger)
        (r : Actor × Result ApiError Prepared)
        → Held contexts r.0
        → Presents contexts r.1
        → Keeps contexts (after_prepare is_http_date size rates meets handle l r)
    after_prepare-Keeps contexts meets handle l (actor, err e) h p =
        fail_job-Keeps contexts meets meets.stopping e actor handle l (λ _. h)
    after_prepare-Keeps contexts meets handle l (actor, ok prepared) h p =
        elim (Option-cases (response_started 200 handle)) [
          | inl q ↦ rw q tt
          | inr (started, q) ↦ rw q (relay_job-Keeps contexts actor meets prepared started l p)
        ]

    pub respond-Keeps :
        (contexts : Contexts) (meets : Meets) (actor : Actor) (turn : Turn) (handle : Handle)
        (l : Ledger)
        → Held contexts actor
        → GivesFresh contexts meets.peer
        → Keeps
            (served contexts meets.peer actor turn)
            (respond is_http_date size rates meets actor turn handle l)
    unfolding respond shutdown
    respond-Keeps contexts meets actor turn handle l h fresh = go meets.race
      where
        go :
            (race : Race)
            → Keeps (served contexts meets.peer actor turn) (elim race [
              | stops stage ↦
                  fail_job meets true shutdown (left_at stage meets.peer actor turn) handle l
              | client_leaves stage ↦
                  cancel_job meets (left_at stage meets.peer actor turn) handle l
              | prepares ↦
                  after_prepare is_http_date size rates meets handle l
                    (prepare meets.peer actor turn)
            ])
        go (stops stage) =
            fail_job-Keeps (served contexts meets.peer actor turn) meets true shutdown
              (left_at stage meets.peer actor turn) handle l (λ e. absurd cc)
        go (client_leaves stage) =
            disconnected-Held (served contexts meets.peer actor turn)
              (left_at stage meets.peer actor turn)
        go prepares =
            let (k, p) = prepare-Good contexts meets.peer actor turn h fresh in
            after_prepare-Keeps (served contexts meets.peer actor turn) meets handle l
              (prepare meets.peer actor turn) k p
