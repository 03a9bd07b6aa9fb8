-- ===== src/Sessions/Respond.antt =====
-- src/http_api/responses_session.rs: `respond`, a turn of a session's actor from its job to its end.
use codex_api.Common.{
  ℕ, not, nat_eq, ◌&&◌, Bool, true, false, Option, none, some, is_some, List, [], ◌++◌, String,
  str_eq, Result, ok, err, and_then, map_option, filter_option, if◌then◌else◌,
}
use codex_api.Json.{Json}
use codex_api.Json.Access.{as_str, as_array, pointer}
use codex_api.Auth.Headers.{Headers}
use codex_api.Store.Decimals.{Decimals}
use codex_api.Store.Times.{Times}
use codex_api.Store.Types.{FinalStatus, rejected, canceled, upstream_error, ModelRates}
use codex_api.Store.Ledger.{Ledger}
use codex_api.Terminal.Event.{TerminalEvent}
use codex_api.Errors.Api.{ApiError, shutdown}
use codex_api.Pending.Handle.{Handle, Circumstances, response_started, finish, drop}
use codex_api.Http.Relay.{Arrival, is_completed, Forwarded, forward_websocket_responses_stream}
use codex_api.Sessions.Actor.{Snapshot, Turn, Actor, plan, Peer, connect, Prepared, prepare}

-- How the turn ends for the client.
pub data TurnEnd : Type 0 where
  turn_error : ApiError → TurnEnd
  turn_terminal : String → TurnEnd
  turn_canceled : TurnEnd

-- Where `prepare` waits when it is given up: for the handshake, in a new context, or for an
-- incremental request to go out.
pub data Stage : Type 0 where
  connecting warming sending : Stage

-- What `select!` sees while the turn is prepared: `prepare` comes to its end, the server stops, or
-- the client goes.
pub data Race : Type 0 where
  prepares : Race
  stops client_leaves : Stage → Race

module _ ⦃J : Json⦄ ⦃H : Headers⦄ where
  open J use {Value}

  abbrev pub left_on : Stage → Actor → Result ApiError Actor → Actor
  left_on stage before (err e) = before
  left_on connecting before (ok actor) = before
  left_on warming before (ok actor) = record actor { upstream_response_id = none }
  left_on sending before (ok actor) = actor

  -- What a preparation that is given up leaves of the session.
  unfoldable pub left_at : Stage → Peer → Actor → Turn → Actor
  left_at stage peer actor turn = elim (plan actor turn) [
    | err e ↦ actor
    | ok p ↦ left_on stage actor (connect peer p.headers actor)
  ]

  abbrev pub disconnected : Actor → Actor
  disconnected actor = record actor { connected = false }

  -- The identifier and the output of a response that the session remembers.
  unfoldable pub answer_of : Actor → TerminalEvent → Option (String × List Value)
  answer_of actor terminal =
      if is_some actor.key && is_completed terminal.kind
      then and_then
          (filter_option (λ id. not (str_eq id ""))
            (and_then (pointer terminal.payload "response" "id") as_str))
          (λ id.
            and_then (and_then (pointer terminal.payload "response" "output") as_array)
              (λ output. some (id, output)))
      else none

  module _ (size : Snapshot → ℕ) where
    -- The session after a terminal event; `size` is the length of the snapshot as the crate writes it.
    unfoldable pub remember : Actor → Prepared → TerminalEvent → Actor
    remember actor p terminal = elim (answer_of actor terminal) [
      | none ↦ disconnected actor
      | some (id, output) ↦
          let latest : Snapshot = record {
            response_id = id;
            input = p.input ++ output;
            parameters = p.parameters;
          } in
          record actor {
            bytes = size latest;
            upstream_response_id = some id;
            snapshot = some latest;
          }
    ]

module _ ⦃J : Json⦄ ⦃H : Headers⦄ ⦃D : Decimals⦄ ⦃T : Times⦄ where
  open J use {Value}

  -- What a job meets.
  pub record Meets : Type 0 where
    pub race : Race
    pub peer : Peer
    -- whether the server is stopping when the preparation has failed
    pub stopping : Bool
    -- whether the client still waits for the stream
    pub waits : Bool
    -- whether the server stops or the client goes while the relay runs, before a terminal event
    pub interrupted : Bool
    pub arrivals : List Arrival
    -- whether the client still takes the terminal event
    pub reserves : Bool
    pub first : Circumstances
    pub second : Circumstances
    pub dropped : Circumstances

  -- What a turn leaves; `answered` has the request and the answer that the session remembers.
  pub record Responded : Type 0 where
    pub end : TurnEnd
    pub answered : Option (Prepared × String × List Value)
    pub actor : Actor
    pub handle : Handle
    pub ledger : Ledger

  -- The job is dropped at the end of its turn, with its handle.
  abbrev pub ends_with :
      Meets
      → TurnEnd
      → Option (Prepared × String × List Value)
      → Actor
      → Handle
      → Ledger
      → Responded
  ends_with meets end answered actor handle l =
      let (rest, after) = drop meets.dropped handle l in
      record { end = end; answered = answered; actor = actor; handle = rest; ledger = after }

  abbrev pub failure_status : ApiError → Bool → FinalStatus
  failure_status error stopping =
      if nat_eq error.status 400 then rejected else if stopping then canceled else upstream_error

  unfoldable pub fail_job : Meets → Bool → ApiError → Actor → Handle → Ledger → Option Responded
  fail_job meets stopping error actor handle l =
      elim (finish meets.first (failure_status error stopping) (some error.status) none handle l) [
        | none ↦ none
        | some (_, rest, after) ↦ some (
            ends_with meets (turn_error error) none
              (if nat_eq error.status 400 then actor else disconnected actor) rest after)
      ]

  abbrev pub cancel_job : Meets → Actor → Handle → Ledger → Option Responded
  cancel_job meets actor handle l =
      some (ends_with meets turn_canceled none (disconnected actor) handle l)

  module _ (is_http_date : List ℕ → Bool) (size : Snapshot → ℕ) (rates : ModelRates) where
    abbrev pub after_terminal :
        Meets → Actor → Prepared → Option (TerminalEvent × String) → Handle → Ledger → Responded
    after_terminal meets actor p none handle l =
        ends_with meets turn_canceled none (disconnected actor) handle l
    after_terminal meets actor p (some (terminal, bytes)) handle l =
        if meets.reserves
        then ends_with meets (turn_terminal bytes)
            (map_option (λ answer. (p, answer.0, answer.1)) (answer_of actor terminal))
            (remember size actor p terminal) handle l
        else ends_with meets turn_canceled none (disconnected actor) handle l

    abbrev pub after_relay : Meets → Actor → Prepared → Option Forwarded → Option Responded
    after_relay meets actor p none = none
    after_relay meets actor p (some r) =
        some (after_terminal meets actor p r.terminal r.handle r.ledger)

    unfoldable pub relay_job : Meets → Actor → Prepared → Handle → Ledger → Option Responded
    relay_job meets actor p handle l =
        if not meets.waits
        then cancel_job meets actor handle l
        else if meets.interrupted
        then cancel_job meets actor handle l
        else after_relay meets actor p (
            forward_websocket_responses_stream is_http_date meets.first meets.second rates handle l
              [] meets.arrivals)

    abbrev pub with_started : (Handle → Option Responded) → Option Handle → Option Responded
    with_started next none = none
    with_started next (some handle) = next handle

    abbrev pub after_prepare :
        Meets → Handle → Ledger → Actor × Result ApiError Prepared → Option Responded
    after_prepare meets handle l (actor, err error) =
        fail_job meets meets.stopping error actor handle l
    after_prepare meets handle l (actor, ok p) =
        with_started (λ started. relay_job meets actor p started l) (response_started 200 handle)

    unfoldable pub respond : Meets → Actor → Turn → Handle → Ledger → Option Responded
    respond meets actor turn handle l = elim meets.race [
      | stops stage ↦ fail_job meets true shutdown (left_at stage meets.peer actor turn) handle l
      | client_leaves stage ↦ cancel_job meets (left_at stage meets.peer actor turn) handle l
      | prepares ↦ after_prepare meets handle l (prepare meets.peer actor turn)
    ]
