-- ===== src/Ws/Runs.antt =====
-- A whole WebSocket session (src/ws.rs), from its first event to its end.
use codex_api.Common.{
  ℕ, ◌≡◌, ◌≢◌, inl, inr, Bool, true, false, Option, none, some, List, [], ◌∷◌, String, Result, ok,
  err, Option-cases,
}
use codex_api.Json.{Json, null}
use codex_api.Store.Decimals.{Decimals}
use codex_api.Store.Times.{Times}
use codex_api.Store.Types.{
  ModelCandidates, Admission, EffectiveModel, admitted, weekly_quota_exceeded,
}
use codex_api.Store.Requests.{Outcome, begin_request}
use codex_api.Store.Chosen.{IsCandidate, Chooses, begin_request-Chooses}
use codex_api.Config.Types.{Urls, Config}
use codex_api.Config.Validate.{validate}
use codex_api.Config.Models.{apply_effective_request}
use codex_api.Auth.Authenticate.{ClientIdentity}
use codex_api.Upstream.Messages.{Message, text, binary, ping, pong, frame, close}
use codex_api.Ws.Prepare.{PrepareError, validation, panic, PreparedRequest, prepare_request}
use codex_api.Ws.Session.{Connection, Around, Handled}
use codex_api.Ws.Handlers.{
  begin_turn, handle_create, handle_downstream, handle_event, ConnectionEvent, stop, client_gone,
  upstream_gone, downstream, upstream, Round, after_event, run,
}
use codex_api.Ws.Rows.{begin-IsValid, begin-OpensFor}
use codex_api.Ws.Closed.{
  owns, IsSettled, HandledWell, CalmAround, Applies, send_upstream-Settled, reject-Settled,
  admitted-HandledWell,
}
use codex_api.Ws.Ended.{handle_upstream-HandledWell, AllClosed, finish-AllClosed}
use codex_api.Ws.Accepted.{Prepares, prepare_request-Prepares}

module _ ⦃J : Json⦄ ⦃D : Decimals⦄ ⦃T : Times⦄ ⦃U : Urls⦄ where
  open J use {Value, make, from_str}

  chosen-Applies :
      (candidates : ModelCandidates) (payload : Value) (o : Outcome Admission)
      → Chooses candidates o
      → ((effective : EffectiveModel)
          → IsCandidate candidates effective
          → apply_effective_request payload effective ≢ none)
      → Applies payload o
  chosen-Applies candidates payload (err e, l) c h = tt
  chosen-Applies candidates payload (ok weekly_quota_exceeded, l) c h = tt
  chosen-Applies candidates payload (ok (admitted id effective), l) c h = h effective c

  begin_turn-HandledWell :
      (around : Around) (identity : ClientIdentity) (c : Connection)
      (r : Result (Value × PrepareError) PreparedRequest)
      → CalmAround around
      → IsSettled c
      → Prepares r
      → HandledWell (begin_turn around identity c r)
  begin_turn-HandledWell around identity c (err (value, panic e)) q s p = p
  begin_turn-HandledWell around identity c (err (value, validation param m)) q s p =
      reject-Settled around identity value _ c s
  begin_turn-HandledWell around identity c (ok prepared) q s p =
      let at = around.first in
      admitted-HandledWell around prepared.payload c
        (begin_request at.db at.others prepared.context identity.quota prepared.candidates at.now
          c.ledger)
        q
        (begin-IsValid at prepared.context identity.quota prepared.candidates c.ledger q.first
          s.valid)
        (begin-OpensFor at prepared.context identity.quota prepared.candidates (owns c.active)
          c.ledger q.first s.closed)
        (chosen-Applies prepared.candidates prepared.payload _
          (begin_request-Chooses at.db at.others prepared.context identity.quota prepared.candidates
            at.now c.ledger)
          p)

  -- A session that goes on has at most its request in flight open, one that ended has no row open.
  abbrev pub RunWell : Option (Bool × Connection) → Type 0
  RunWell none = ⊥
  RunWell (some (false, c)) = IsSettled c
  RunWell (some (true, c)) = AllClosed c

  abbrev pub AllCalm : List Round → Type 0
  AllCalm [] = Unit
  AllCalm (round ∷ rounds) = CalmAround round.around × CalmAround round.at_end × AllCalm rounds

  after_event-RunWell :
      (next : Connection → Option (Bool × Connection)) (at_end : Around) (r : Handled)
      → CalmAround at_end
      → HandledWell r
      → ((c : Connection) → IsSettled c → RunWell (next c))
      → RunWell (after_event next at_end r)
  after_event-RunWell next at_end none q h n = h
  after_event-RunWell next at_end (some (none, c)) q h n = n c h
  after_event-RunWell next at_end (some (some end, c)) q h n =
      finish-AllClosed at_end end c q h.0 h.1

  module _ (config : Config) (identity : ClientIdentity) (v : validate config ≡ ok tt) where
    handle_create-HandledWell :
        (around : Around) (received : String) (c : Connection)
        → CalmAround around
        → IsSettled c
        → HandledWell (handle_create config identity around received c)
    unfolding handle_create
    handle_create-HandledWell around received c q s = elim (Option-cases (from_str received)) [
      | inl p ↦ rw (p, handle_create) (reject-Settled around identity (make null) _ c s)
      | inr (value, p) ↦
          rw (p, handle_create)
            (begin_turn-HandledWell around identity c (prepare_request value config identity) q s
              (prepare_request-Prepares value config identity v))
    ]

    handle_downstream-HandledWell :
        (around : Around) (m : Message) (c : Connection)
        → CalmAround around
        → IsSettled c
        → HandledWell (handle_downstream config identity around m c)
    unfolding handle_downstream
    handle_downstream-HandledWell around (text received) c q s =
        handle_create-HandledWell around received c q s
    handle_downstream-HandledWell around binary c q s = (s, tt)
    handle_downstream-HandledWell around frame c q s = (s, tt)
    handle_downstream-HandledWell around ping c q s = send_upstream-Settled around ping c s
    handle_downstream-HandledWell around pong c q s = send_upstream-Settled around pong c s
    handle_downstream-HandledWell around (close received) c q s = (s, tt)

    module _ (is_http_date : List ℕ → Bool) where
      handle_event-HandledWell :
          (around : Around) (event : ConnectionEvent) (c : Connection)
          → CalmAround around
          → IsSettled c
          → HandledWell (handle_event is_http_date config identity around event c)
      unfolding handle_event
      handle_event-HandledWell around stop c q s = (s, tt)
      handle_event-HandledWell around client_gone c q s = (s, tt)
      handle_event-HandledWell around upstream_gone c q s = (s, tt)
      handle_event-HandledWell around (downstream m) c q s =
          handle_downstream-HandledWell around m c q s
      handle_event-HandledWell around (upstream m) c q s =
          handle_upstream-HandledWell is_http_date around m c q s

      -- With a validated configuration, a store that answers, and no other task that writes, a
      -- WebSocket session whose only open row is that of its request in flight never panics. While it
      -- goes on, that stays so, and when it has ended, for whatever reason, no row is open.
      pub run_closes :
          (rounds : List Round) (c : Connection)
          → AllCalm rounds
          → IsSettled c
          → RunWell (run is_http_date config identity rounds c)
      unfolding run
      run_closes [] c q s = s
      run_closes (round ∷ rounds) c q s =
          after_event-RunWell (λ after. run is_http_date config identity rounds after) round.at_end
            (handle_event is_http_date config identity round.around round.event c) q.1
            (handle_event-HandledWell round.around round.event c q.0 s)
            (λ after t. run_closes rounds after q.2 t)
