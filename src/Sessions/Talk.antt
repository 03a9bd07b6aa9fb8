-- ===== src/Sessions/Talk.antt =====
-- A session of src/http_api/responses_session.rs over its turns: each request that goes upstream
-- presents the full history.
use codex_api.Common.{
  ok_or-ok, filter_option-some, ℕ, ◌≡◌, ◌∙◌, refl, sym, ap, subst, ◌⊎◌, inl, inr, Bool, Option,
  none, some, is_some, List, ◌++◌, String, str_eq, eq_iff, Result, ok, err, filter_option,
  Result-cases, Option-cases, Bool-cases, bind-ok, ok-injective, ok_or, ensure, map_err,
}
use codex_api.Json.{Json, object}
use codex_api.Auth.Headers.{Headers}
use codex_api.Store.Decimals.{Decimals}
use codex_api.Store.Times.{Times}
use codex_api.Store.Types.{ModelRates}
use codex_api.Store.Ledger.{Ledger}
use codex_api.Errors.Api.{ApiError, gateway}
use codex_api.Pending.Handle.{Handle}
use codex_api.Upstream.Passthrough.{codex_request_headers}
use codex_api.Upstream.Lite.{UpstreamWebSocketError, responses_lite_prewarm}
use codex_api.Sessions.Actor.{
  Snapshot, Turn, Actor, Plan, plan, Peer, connect, incremental, Prepared, send_body, after_warmup,
  converse, prepare, previous_id_of, input_of, history_of, metadata_of, copy_metadata,
  metadata_names,
}
use codex_api.Sessions.Respond.{Meets, Responded, disconnected, respond}
use codex_api.Sessions.Same.{Contexts, nothing_held, presented, Shown}
use codex_api.Sessions.Conversation.{Held, served, GivesFresh, Presents, prepare-Good}
use codex_api.Sessions.Kept.{learn, Keeps, disconnected-Held, respond-Keeps}

module _ ⦃J : Json⦄ ⦃H : Headers⦄ where
  open J use {Value, Fields, make, get, insert, remove}

  -- The history that a turn asks for: its own input, after the snapshot that it names, if any.
  abbrev pub Asked : Actor → Turn → List Value → Type 0
  Asked actor turn input =
      (given : List Value) × (input_of (get turn.body "input") ≡ ok given)
      × (((previous_id_of (get turn.body "previous_response_id") ≡ ok none) × (input ≡ given))
          ⊎ ((s : Snapshot) × (actor.snapshot ≡ some s)
              × (previous_id_of (get turn.body "previous_response_id") ≡ ok (some s.response_id))
              × (input ≡ s.input ++ given)))

  history_of-Asked :
      (actor : Actor) (turn : Turn) (previous : Option String) (given input : List Value)
      → previous_id_of (get turn.body "previous_response_id") ≡ ok previous
      → input_of (get turn.body "input") ≡ ok given
      → history_of (is_some actor.key) actor.snapshot previous given ≡ ok input
      → Asked actor turn input
  unfolding history_of
  history_of-Asked actor turn none given input p g h =
      (given, g, inl (p, sym (ok-injective given input h)))
  history_of-Asked actor turn (some id) given input p g h =
      let (_, _, h1) = bind-ok (ensure (is_some actor.key) _) _ input h in
      let found = filter_option (λ (s : Snapshot). str_eq s.response_id id) actor.snapshot in
      let (s, q, h2) = bind-ok (ok_or found _) _ input h1 in
      let (a, b) =
        filter_option-some (λ (s : Snapshot). str_eq s.response_id id) actor.snapshot s
          (ok_or-ok found _ s q) in
      (
        given,
        g,
        inr (
          s,
          a,
          p ∙ ap (λ i. ok (some i)) (sym ((eq_iff s.response_id id).0 b)),
          sym (ok-injective (s.input ++ given) input h2),
        ),
      )

  plan-Asked :
      (actor : Actor) (turn : Turn) (p : Plan) → plan actor turn ≡ ok p → Asked actor turn p.input
  unfolding plan
  plan-Asked actor turn p h =
      let (previous, a, h1) =
        bind-ok (previous_id_of (get turn.body "previous_response_id")) _ p h in
      let (given, b, h2) = bind-ok (input_of (get turn.body "input")) _ p h1 in
      let (input, c, h3) =
        bind-ok (history_of (is_some actor.key) actor.snapshot previous given) _ p h2 in
      let body = remove turn.body "previous_response_id" in
      let (metadata, _, h4) = bind-ok (metadata_of body) _ p h3 in
      let (copied, _, h5) =
        bind-ok
          (copy_metadata metadata_names (codex_request_headers turn.headers (make (object body)))
            metadata)
          _ p h4 in
      let (made, _, h6) =
        bind-ok
          (map_err (λ _. gateway "Failed to prepare the upstream Responses session")
            (responses_lite_prewarm
              (make (object (insert body "client_metadata" (make (object copied.1))))) turn.model
              actor.request_key))
          _ p h5 in
      subst (Asked actor turn) (ap (λ (x : Plan). x.input) (ok-injective _ p h6))
        (history_of-Asked actor turn previous given input a b c)

  -- A request that is sent has the history of its plan.
  abbrev SentFor : Plan → Result ApiError Prepared → Type 0
  SentFor p (err e) = Unit
  SentFor p (ok prepared) = p.input ≡ prepared.input

  send_body-SentFor :
      (peer : Peer) (p : Plan) (actor : Actor) (sent : Fields)
      → SentFor p (send_body peer p actor sent).1
  send_body-SentFor peer p actor sent = elim (Bool-cases (peer.takes (make (object sent)))) [
    | inl q ↦ rw q refl
    | inr q ↦ rw q tt
  ]

  after_warmup-SentFor :
      (peer : Peer) (p : Plan) (actor : Actor) (r : Result UpstreamWebSocketError String)
      → SentFor p (after_warmup peer p actor r).1
  after_warmup-SentFor peer p actor (err e) = tt
  after_warmup-SentFor peer p actor (ok id) = send_body-SentFor peer p actor _

  converse-SentFor : (peer : Peer) (p : Plan) (actor : Actor) → SentFor p (converse peer p actor).1
  unfolding converse
  converse-SentFor peer p actor = elim (Option-cases (incremental p actor)) [
    | inl q ↦
        rw (q, converse)
          (after_warmup-SentFor peer p (record actor { upstream_response_id = none }) _)
    | inr (s, q) ↦ rw (q, converse) (send_body-SentFor peer p actor _)
  ]

  prepare-Asked :
      (peer : Peer) (actor after : Actor) (turn : Turn) (p : Prepared)
      → prepare peer actor turn ≡ (after, ok p)
      → Asked actor turn p.input
  unfolding prepare
  prepare-Asked peer actor after turn p h = elim (Result-cases (plan actor turn)) [
    | inl (e, q) ↦ absurd (cc (rw (q, prepare) at h))
    | inr (planned, q) ↦ elim (Result-cases (connect peer planned.headers actor)) [
      | inl (e, r) ↦ absurd (cc (rw (q, r, prepare) at h))
      | inr (connected, r) ↦
          let k : converse peer planned connected ≡ (after, ok p) = rw (q, r, prepare) at h in
          let e : planned.input ≡ p.input =
            subst (λ (x : Actor × Result ApiError Prepared). SentFor planned x.1) k
              (converse-SentFor peer planned connected) in
          subst (Asked actor turn) e (plan-Asked actor turn planned q)
    ]
  ]

module _ ⦃J : Json⦄ ⦃H : Headers⦄ ⦃D : Decimals⦄ ⦃T : Times⦄ where
  module _ (is_http_date : List ℕ → Bool) (size : Snapshot → ℕ) (rates : ModelRates) where
    -- The turns of a session, with what the upstream holds on the connection that the session has
    -- last made: it begins with no snapshot, it responds to jobs, and between them it can lose its
    -- connection, and with it all that was held.
    pub data Talk : Contexts → Actor → Type 0 where
      begins : (actor : Actor) → actor.snapshot ≡ none → Talk nothing_held actor
      responds :
          {contexts : Contexts} {actor : Actor} (meets : Meets) (turn : Turn) (handle : Handle)
          (l : Ledger) (r : Responded)
          → Talk contexts actor
          → GivesFresh contexts meets.peer
          → respond is_http_date size rates meets actor turn handle l ≡ some r
          → Talk (learn (served contexts meets.peer actor turn) r.answered) r.actor
      loses :
          {contexts : Contexts} {actor : Actor}
          → Talk contexts actor
          → Talk nothing_held (disconnected actor)

    Talk-Held : {contexts : Contexts} {actor : Actor} → Talk contexts actor → Held contexts actor
    Talk-Held (begins actor n) = λ s a _ _. absurd cc
    Talk-Held (responds {contexts} {actor} meets turn handle l r t fresh e) =
        subst (Keeps (served contexts meets.peer actor turn)) e (
          respond-Keeps is_http_date size rates contexts meets actor turn handle l (Talk-Held t)
            fresh)
    Talk-Held (loses {contexts} {actor} t) = disconnected-Held nothing_held actor

    -- After any turns of a session, with whatever errors, ends and reconnections, a request that
    -- `prepare` sends presents the full history on the connection on which it is sent, where a new
    -- connection holds nothing of the earlier ones: the upstream knows there the response that the
    -- request names, if it names one, and what it holds for that response, followed by the input of
    -- the request, is item by item equal to the history; and the history is the client's input,
    -- after the input of the snapshot that the client names, if it names one. A warmup is taken to
    -- be given a fresh identifier, and to start with no history.
    pub session_presents_history :
        (contexts : Contexts) (actor after : Actor) (peer : Peer) (turn : Turn) (p : Prepared)
        → Talk contexts actor
        → GivesFresh contexts peer
        → prepare peer actor turn ≡ (after, ok p)
        → Shown (presented (served contexts peer actor turn) p.sent) p.input
          × Asked actor turn p.input
    session_presents_history contexts actor after peer turn p t fresh h = (
      subst
          (λ (x : Actor × Result ApiError Prepared). Presents (served contexts peer actor turn) x.1)
          h (prepare-Good contexts peer actor turn (Talk-Held t) fresh).1,
      prepare-Asked peer actor after turn p h,
    )
