-- ===== src/Sessions/Conversation.antt =====
-- What the upstream sees of a session (src/http_api/responses_session.rs): however the requests are
-- shortened, the context that they go on from makes up the client's full history. What the upstream
-- holds belongs to a connection.
use codex_api.Common.{
  ◌&&◌, ◌≡◌, ◌∙◌, refl, sym, ap, subst, inl, inr, Bool, true, false, Option, none, some, map_option,
  List, [], ◌++◌, length, String, str_eq, eq_iff, eq_refl, Result, ok, err, filter_option, skip,
  both, if◌then◌else◌, Result-cases, Option-cases, Bool-cases,
}
use codex_api.Json.{Json, object}
use codex_api.Auth.Headers.{Headers}
use codex_api.Errors.Api.{ApiError}
use codex_api.Upstream.Lite.{UpstreamWebSocketError}
use codex_api.Sessions.Actor.{
  Snapshot, starts_with, Turn, Actor, Plan, plan, Peer, connect, is_latest, incremental, Prepared,
  continued, send_body, after_warmup, converse, on_connection, prepare,
}
use codex_api.Sessions.Same.{
  Same-refl, Contexts, nothing_held, presented, Shown, Shown-skip, presented-continued,
}

module _ ⦃J : Json⦄ ⦃H : Headers⦄ where
  open J use {Value, Fields, make, remove, value_eq}
  open H use {HeaderMap, headers_eq}

  -- A session that is connected and would go on from its snapshot has what the upstream holds on the
  -- connection.
  abbrev pub Held : Contexts → Actor → Type 0
  Held contexts actor =
      (s : Snapshot)
      → actor.snapshot ≡ some s
      → actor.connected ≡ true
      → actor.upstream_response_id ≡ some s.response_id
      → Shown (contexts s.response_id) s.input

  -- What is held once a connection with these headers is there: the connection that the session has
  -- keeps what it holds if it was made with the same headers, and a new one holds nothing.
  abbrev reached : Contexts → Peer → HeaderMap → Actor → Contexts
  reached contexts peer headers actor =
      if actor.connected && headers_eq actor.handshake_headers headers
      then contexts
      else if peer.connects headers
      then nothing_held
      else contexts

  abbrev names : Result UpstreamWebSocketError String → String → Bool
  names (err e) id = false
  names (ok given) id = str_eq given id

  abbrev or_empty : Option (List Value) → Bool → Option (List Value)
  or_empty (some held) given = some held
  or_empty none given = if given then some [] else none

  -- The answer to the warmup names an empty context.
  abbrev warmed : Contexts → Peer → Plan → Contexts
  warmed contexts peer p id =
      or_empty (contexts id)
        (names (peer.warm_up (make (object (remove p.prewarm "previous_response_id")))) id)

  -- What the upstream holds on the connection on which the request of a turn is sent.
  abbrev pub served : Contexts → Peer → Actor → Turn → Contexts
  served contexts peer actor turn = elim (plan actor turn) [
    | err e ↦ contexts
    | ok p ↦ warmed (reached contexts peer p.headers actor) peer p
  ]

  -- A warmup is given an identifier that the upstream does not use yet.
  abbrev pub GivesFresh : Contexts → Peer → Type 0
  GivesFresh contexts peer = (v : Value) (id : String) → peer.warm_up v ≡ ok id → contexts id ≡ none

  -- What is said of a prepared request.
  abbrev pub Presents : Contexts → Result ApiError Prepared → Type 0
  Presents contexts (err e) = Unit
  Presents contexts (ok p) = Shown (presented contexts p.sent) p.input

  -- What a connection leaves: after it the session is connected, and without it all is as before.
  abbrev Reaches : Contexts → Actor → Result ApiError Actor → Type 0
  Reaches contexts before (err e) = Held contexts before
  Reaches contexts before (ok after) = (after.connected ≡ true) × Held contexts after

  connect-Reaches :
      (contexts : Contexts) (peer : Peer) (headers : HeaderMap) (actor : Actor)
      → Held contexts actor
      → Reaches (reached contexts peer headers actor) actor (connect peer headers actor)
  unfolding connect
  connect-Reaches contexts peer headers actor h =
      elim (Bool-cases (actor.connected && headers_eq actor.handshake_headers headers)) [
        | inl q ↦
            rw (q, connect)
              ((both actor.connected (headers_eq actor.handshake_headers headers) q).0, h)
        | inr q ↦ elim (Bool-cases (peer.connects headers)) [
          | inl r ↦ rw (q, connect) (rw r (refl, λ s _ _ n. absurd cc))
          | inr r ↦ rw (q, connect) (rw r h)
        ]
      ]

  reached-GivesFresh :
      (contexts : Contexts) (peer : Peer) (headers : HeaderMap) (actor : Actor)
      → GivesFresh contexts peer
      → GivesFresh (reached contexts peer headers actor) peer
  reached-GivesFresh contexts peer headers actor fresh v id e =
      elim (Bool-cases (actor.connected && headers_eq actor.handshake_headers headers)) [
        | inl q ↦ rw q (fresh v id e)
        | inr q ↦ elim (Bool-cases (peer.connects headers)) [
          | inl r ↦ rw q (rw r refl)
          | inr r ↦ rw q (rw r (fresh v id e))
        ]
      ]

  or_empty-Shown :
      (o : Option (List Value)) (given : Bool) (input : List Value)
      → Shown o input
      → Shown (or_empty o given) input
  or_empty-Shown none given input h = elim h [ ]
  or_empty-Shown (some held) given input h = h

  warmed-Held :
      (contexts : Contexts) (peer : Peer) (p : Plan) (actor : Actor)
      → Held contexts actor
      → Held (warmed contexts peer p) actor
  warmed-Held contexts peer p actor h s a b c =
      or_empty-Shown (contexts s.response_id) _ s.input (h s a b c)

  latest_is : (o : Option String) (id : String) → is_latest o id ≡ true → o ≡ some id
  latest_is none id h = absurd cc
  latest_is (some latest) id h = ap some ((eq_iff latest id).0 h)

  incremental-some :
      (p : Plan) (actor : Actor) (s : Snapshot)
      → incremental p actor ≡ some s
      → (actor.snapshot ≡ some s)
        × (actor.upstream_response_id ≡ some s.response_id)
        × (starts_with p.input s.input ≡ true)
  unfolding incremental
  incremental-some p actor s h = found actor.snapshot h
    where
      found :
          (o : Option Snapshot)
          → filter_option
              (λ (s : Snapshot).
                is_latest actor.upstream_response_id s.response_id
                && value_eq s.parameters p.parameters
                && starts_with p.input s.input)
              o
            ≡ some s
          → (o ≡ some s)
            × (actor.upstream_response_id ≡ some s.response_id)
            × (starts_with p.input s.input ≡ true)
      found none k = absurd cc
      found (some t) k =
          elim (Bool-cases (
            is_latest actor.upstream_response_id t.response_id
            && value_eq t.parameters p.parameters
            && starts_with p.input t.input)) [
              | inr q ↦ absurd (cc (rw (q, filter_option) at k))
              | inl q ↦
                  let e : t ≡ s = cc (rw (q, filter_option) at k) in
                  let (a, b) =
                    both
                      (is_latest actor.upstream_response_id t.response_id
                        && value_eq t.parameters p.parameters)
                      (starts_with p.input t.input) q in
                  let (c, _) =
                    both (is_latest actor.upstream_response_id t.response_id)
                      (value_eq t.parameters p.parameters) a in
                  (
                    ap some e,
                    subst (λ (x : Snapshot). actor.upstream_response_id ≡ some x.response_id) e
                        (latest_is actor.upstream_response_id t.response_id c),
                    subst (λ (x : Snapshot). starts_with p.input x.input ≡ true) e b,
                  )
            ]

  -- What a preparation leaves: the session as the upstream holds it, and a request that presents
  -- the full history.
  abbrev Good : Contexts → Actor × Result ApiError Prepared → Type 0
  Good contexts r = Held contexts r.0 × Presents contexts r.1

  send_body-Good :
      (contexts : Contexts) (peer : Peer) (p : Plan) (actor : Actor) (sent : Fields)
      → Held contexts actor
      → Shown (presented contexts sent) p.input
      → Good contexts (send_body peer p actor sent)
  send_body-Good contexts peer p actor sent h s =
      elim (Bool-cases (peer.takes (make (object sent)))) [
        | inl q ↦ rw q (h, s)
        | inr q ↦ rw q (h, tt)
      ]

  -- The warmup's own context is empty, since its identifier is fresh.
  warmed-given :
      (contexts : Contexts) (peer : Peer) (p : Plan) (id : String)
      → GivesFresh contexts peer
      → peer.warm_up (make (object (remove p.prewarm "previous_response_id"))) ≡ ok id
      → warmed contexts peer p id ≡ some []
  warmed-given contexts peer p id fresh q =
      let v = make (object (remove p.prewarm "previous_response_id")) in
      ap (λ o. or_empty o (names (peer.warm_up v) id)) (fresh v id q)
      ∙ ap (or_empty none) (ap (λ r. names r id) q ∙ eq_refl id)

  after_warmup-Good :
      (contexts : Contexts) (peer : Peer) (p : Plan) (actor : Actor)
      → Held (warmed contexts peer p) actor
      → GivesFresh contexts peer
      → Good (warmed contexts peer p) (
          after_warmup peer p actor
            (peer.warm_up (make (object (remove p.prewarm "previous_response_id")))))
  after_warmup-Good contexts peer p actor h fresh =
      let v = make (object (remove p.prewarm "previous_response_id")) in
      let held = warmed contexts peer p in
      elim (Result-cases (peer.warm_up v)) [
        | inl (e, q) ↦ subst (λ r. Good held (after_warmup peer p actor r)) (sym q) (h, tt)
        | inr (id, q) ↦
            subst (λ r. Good held (after_warmup peer p actor r)) (sym q)
              (send_body-Good held peer p actor (continued p.body id p.input) h (
                subst (λ o. Shown o p.input)
                  (sym (
                    presented-continued held p.body id p.input
                    ∙ ap (map_option (λ xs. xs ++ p.input))
                        (warmed-given contexts peer p id fresh q)))
                  (Same-refl p.input)))
      ]

  converse-Good :
      (contexts : Contexts) (peer : Peer) (p : Plan) (actor : Actor)
      → actor.connected ≡ true
      → Held contexts actor
      → GivesFresh contexts peer
      → Good (warmed contexts peer p) (converse peer p actor)
  unfolding converse
  converse-Good contexts peer p actor c h fresh = elim (Option-cases (incremental p actor)) [
    | inl q ↦
        rw (q, converse)
          (after_warmup-Good contexts peer p (record actor { upstream_response_id = none })
            (λ s _ _ n. absurd cc) fresh)
    | inr (s, q) ↦
        let (a, b, d) = incremental-some p actor s q in
        let held = warmed contexts peer p in
        let k = warmed-Held contexts peer p actor h in
        rw (q, converse)
          (send_body-Good held peer p actor
            (continued p.body s.response_id (skip (length s.input) p.input)) k
            (subst (λ o. Shown o p.input)
              (sym (presented-continued held p.body s.response_id (skip (length s.input) p.input)))
              (Shown-skip (held s.response_id) s.input p.input (k s a c b) d)))
  ]

  pub prepare-Good :
      (contexts : Contexts) (peer : Peer) (actor : Actor) (turn : Turn)
      → Held contexts actor
      → GivesFresh contexts peer
      → Good (served contexts peer actor turn) (prepare peer actor turn)
  unfolding prepare
  prepare-Good contexts peer actor turn h fresh = elim (Result-cases (plan actor turn)) [
    | inl (e, q) ↦ rw (q, prepare, served) (h, tt)
    | inr (p, q) ↦
        rw (q, prepare, served)
          (go p (connect peer p.headers actor) (connect-Reaches contexts peer p.headers actor h))
  ]
    where
      go :
          (p : Plan) (r : Result ApiError Actor)
          → Reaches (reached contexts peer p.headers actor) actor r
          → Good
              (warmed (reached contexts peer p.headers actor) peer p)
              (on_connection peer p actor r)
      go p (err e) k = (warmed-Held (reached contexts peer p.headers actor) peer p actor k, tt)
      go p (ok after) k =
          converse-Good (reached contexts peer p.headers actor) peer p after k.0 k.1
            (reached-GivesFresh contexts peer p.headers actor fresh)
