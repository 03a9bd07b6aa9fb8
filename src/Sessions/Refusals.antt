-- ===== src/Sessions/Refusals.antt =====
-- The errors of `prepare` (src/http_api/responses_session.rs) have the status of an HTTP error.
use codex_api.Common.{
  ◌≡◌, refl, subst, inl, inr, Bool, true, false, Option, none, some, is_some, List, [], ◌∷◌, String,
  Result, ok, err, ◌>>=◌, ok_or, ensure, map_err, is_some, str_eq, filter_option, if◌then◌else◌,
  Result-cases, Option-cases, Bool-cases, arith,
}
use codex_api.Json.{Json, View, null, bool, number, string, array, object}
use codex_api.Auth.Headers.{Headers, get_header}
use codex_api.Errors.Api.{ApiError, invalid, gateway}
use codex_api.Pending.Closing.{in_range}
use codex_api.Upstream.Passthrough.{codex_request_headers}
use codex_api.Upstream.Lite.{UpstreamWebSocketError, responses_lite_prewarm}
use codex_api.Sessions.Actor.{
  Snapshot, Turn, Actor, Plan, plan, Peer, connect, incremental, send_body, after_warmup, converse,
  prepare, previous_id_of, input_of, history_of, metadata_of, copy_metadata, metadata_names,
}

-- The status of an error is one of HTTP.
abbrev pub Fits : {A : Type 0} → Result ApiError A → Type 0
Fits (ok a) = Unit
Fits (err e) = in_range (some e.status) ≡ true

bind-Fits :
    {A B : Type 0} (m : Result ApiError A) (next : A → Result ApiError B)
    → Fits m
    → ((a : A) → Fits (next a))
    → Fits (m >>= next)
bind-Fits (ok a) next p h = h a
bind-Fits (err e) next p h = p

ok_or-Fits :
    {A : Type 0} (o : Option A) (e : ApiError) → in_range (some e.status) ≡ true → Fits (ok_or o e)
ok_or-Fits none e h = h
ok_or-Fits (some a) e h = tt

ensure-Fits : (b : Bool) (e : ApiError) → in_range (some e.status) ≡ true → Fits (ensure b e)
ensure-Fits true e h = tt
ensure-Fits false e h = h

map_err-Fits :
    {E A : Type 0} (r : Result E A) (e : ApiError)
    → in_range (some e.status) ≡ true
    → Fits (map_err (λ _. e) r)
map_err-Fits (ok a) e h = tt
map_err-Fits (err x) e h = h

invalid-in_range : (param text : String) → in_range (some (invalid param text).status) ≡ true
unfolding invalid
invalid-in_range param text = refl

gateway-in_range : (text : String) → in_range (some (gateway text).status) ≡ true
unfolding gateway
gateway-in_range text = refl

module _ ⦃J : Json⦄ where
  open J use {Value, Fields, Number, view, make, get, insert, remove}

  previous_id_of-Fits : (found : Option Value) → Fits (previous_id_of found)
  unfolding previous_id_of
  previous_id_of-Fits none = tt
  previous_id_of-Fits (some value) = go (view value)
    where
      go :
          (w : View Value Fields Number)
          → Fits (elim w [
            | null ↦ ok none
            | string id ↦
                if str_eq id ""
                then err (
                    invalid "previous_response_id"
                      "previous_response_id must be a nonempty string or null")
                else ok (some id)
            | _ ↦ err (
                invalid "previous_response_id"
                  "previous_response_id must be a nonempty string or null")
          ])
      go null = tt
      go (string id) = elim (Bool-cases (str_eq id "")) [
        | inl p ↦ rw p (invalid-in_range _ _)
        | inr p ↦ rw p tt
      ]
      go (bool b) = invalid-in_range _ _
      go (number n) = invalid-in_range _ _
      go (array xs) = invalid-in_range _ _
      go (object m) = invalid-in_range _ _

  input_of-Fits : (found : Option Value) → Fits (input_of found)
  unfolding input_of
  input_of-Fits none = tt
  input_of-Fits (some value) = go (view value)
    where
      go :
          (w : View Value Fields Number)
          → Fits (elim w [
            | array input ↦ ok input
            | _ ↦ err (invalid "input" "input must be a string or an array")
          ])
      go (array xs) = tt
      go null = invalid-in_range _ _
      go (string id) = invalid-in_range _ _
      go (bool b) = invalid-in_range _ _
      go (number n) = invalid-in_range _ _
      go (object m) = invalid-in_range _ _

  history_of-Fits :
      (keyed : Bool) (latest : Option Snapshot) (previous : Option String) (input : List Value)
      → Fits (history_of keyed latest previous input)
  unfolding history_of
  history_of-Fits keyed latest none input = tt
  history_of-Fits keyed latest (some id) input =
      bind-Fits (ensure keyed _) _ (ensure-Fits keyed _ (invalid-in_range _ _)) (λ _.
        bind-Fits (ok_or (filter_option (λ (s : Snapshot). str_eq s.response_id id) latest) _) _
          (ok_or-Fits _ _ (invalid-in_range _ _)) (λ _. tt))

module _ ⦃J : Json⦄ ⦃H : Headers⦄ where
  open J use {Value, Fields, make, get, insert, remove}
  open H use {HeaderMap, to_utf8, remove_header}

  copy_metadata-Fits :
      (names : List String) (headers : HeaderMap) (metadata : Fields)
      → Fits (copy_metadata names headers metadata)
  unfolding copy_metadata
  copy_metadata-Fits [] headers metadata = tt
  copy_metadata-Fits (name ∷ names) headers metadata =
      elim (Option-cases (get_header headers name)) [
        | inl p ↦ rw (p, copy_metadata) (copy_metadata-Fits names headers metadata)
        | inr (value, p) ↦ elim (Option-cases (to_utf8 value)) [
          | inl q ↦ rw (p, copy_metadata) (rw q (invalid-in_range _ _))
          | inr (written, q) ↦ rw (p, copy_metadata) (rw q (copy_metadata-Fits names _ _))
        ]
      ]

  plan-Fits : (actor : Actor) (turn : Turn) → Fits (plan actor turn)
  unfolding plan metadata_of
  plan-Fits actor turn =
      bind-Fits _ _ (previous_id_of-Fits (get turn.body "previous_response_id")) (λ previous.
        bind-Fits _ _ (input_of-Fits (get turn.body "input")) (λ given.
          bind-Fits _ _ (history_of-Fits (is_some actor.key) actor.snapshot previous given)
            (λ input. bind-Fits _ _ (ok_or-Fits _ _ (invalid-in_range _ _)) (λ metadata.
              bind-Fits _ _
                (copy_metadata-Fits metadata_names
                  (codex_request_headers turn.headers
                    (make (object (remove turn.body "previous_response_id"))))
                  metadata)
                (λ copied.
                  bind-Fits _ _
                    (map_err-Fits
                      (responses_lite_prewarm
                        (make (
                          object (
                            insert (remove turn.body "previous_response_id") "client_metadata"
                              (make (object copied.1)))))
                        turn.model actor.request_key)
                      (gateway "Failed to prepare the upstream Responses session")
                      (gateway-in_range _))
                    (λ made. tt))))))

  connect-Fits :
      (peer : Peer) (headers : HeaderMap) (actor : Actor) → Fits (connect peer headers actor)
  unfolding connect
  connect-Fits peer headers actor =
      ground (arith, gateway-in_range "Failed to connect to the upstream WebSocket")

  send_body-Fits :
      (peer : Peer) (p : Plan) (actor : Actor) (sent : Fields)
      → Fits (send_body peer p actor sent).1
  send_body-Fits peer p actor sent = elim (Bool-cases (peer.takes (make (object sent)))) [
    | inl q ↦ rw q tt
    | inr q ↦ rw q (gateway-in_range _)
  ]

  after_warmup-Fits :
      (peer : Peer) (p : Plan) (actor : Actor) (r : Result UpstreamWebSocketError String)
      → Fits (after_warmup peer p actor r).1
  after_warmup-Fits peer p actor (err e) = gateway-in_range _
  after_warmup-Fits peer p actor (ok id) = send_body-Fits peer p actor _

  converse-Fits : (peer : Peer) (p : Plan) (actor : Actor) → Fits (converse peer p actor).1
  unfolding converse
  converse-Fits peer p actor = elim (Option-cases (incremental p actor)) [
    | inl q ↦
        rw (q, converse) (after_warmup-Fits peer p (record actor { upstream_response_id = none }) _)
    | inr (s, q) ↦ rw (q, converse) (send_body-Fits peer p actor _)
  ]

  pub prepare-Fits : (peer : Peer) (actor : Actor) (turn : Turn) → Fits (prepare peer actor turn).1
  unfolding prepare
  prepare-Fits peer actor turn = elim (Result-cases (plan actor turn)) [
    | inl (e, q) ↦ rw (q, prepare) (subst Fits q (plan-Fits actor turn))
    | inr (p, q) ↦ elim (Result-cases (connect peer p.headers actor)) [
      | inl (e, r) ↦ rw (q, prepare) (rw r (subst Fits r (connect-Fits peer p.headers actor)))
      | inr (after, r) ↦ rw (q, prepare) (rw r (converse-Fits peer p after))
    ]
  ]
