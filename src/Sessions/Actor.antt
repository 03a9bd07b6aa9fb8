-- ===== src/Sessions/Actor.antt =====
-- src/http_api/responses_session.rs: the actor of a session, and `prepare`, which makes the request
-- that goes upstream.
use codex_api.Common.{
  ℕ, ◌&&◌, Bool, true, false, Option, none, some, is_some, List, [], ◌∷◌, ◌++◌, length, String,
  str_eq, Result, ok, err, ◌>>=◌, ◌>>◌, ensure, ok_or, map_err, filter_option, unwrap_or, skip,
  if◌then◌else◌,
}
use codex_api.Json.{Json, null, string, array, object}
use codex_api.Json.Access.{as_object, index, json_object, json_string}
use codex_api.Auth.Headers.{Headers, get_header}
use codex_api.Errors.Api.{ApiError, invalid, gateway}
use codex_api.Sessions.Key.{SessionKey}
use codex_api.Upstream.Passthrough.{codex_request_headers}
use codex_api.Upstream.Lite.{UpstreamWebSocketError, responses_lite_prewarm}

module _ ⦃J : Json⦄ where
  open J use {Value, Fields, make, view, get, insert, remove, value_eq}

  pub record Snapshot : Type 0 where
    pub response_id : String
    pub input : List Value
    pub parameters : Value

  unfoldable pub previous_id_of : Option Value → Result ApiError (Option String)
  previous_id_of none = ok none
  previous_id_of (some value) =
      let refusal =
        invalid "previous_response_id" "previous_response_id must be a nonempty string or null" in
      elim (view value) [
        | null ↦ ok none
        | string id ↦ if str_eq id "" then err refusal else ok (some id)
        | _ ↦ err refusal
      ]

  unfoldable pub input_of : Option Value → Result ApiError (List Value)
  input_of none = ok []
  input_of (some value) = elim (view value) [
    | array input ↦ ok input
    | _ ↦ err (invalid "input" "input must be a string or an array")
  ]

  -- The full history of a turn.
  unfoldable pub history_of :
      Bool → Option Snapshot → Option String → List Value → Result ApiError (List Value)
  history_of keyed latest none input = ok input
  history_of keyed latest (some id) input = do
    ensure keyed (
        invalid "previous_response_id"
          "Provide thread_id or session_id and resend the full history to start a session")
    snapshot ← ok_or (filter_option (λ (s : Snapshot). str_eq s.response_id id) latest) (
        invalid "previous_response_id"
          "The response is not the latest cached response in this session; resend the full history without previous_response_id")
    ok (snapshot.input ++ input)

  -- `input.starts_with(prefix)`
  unfoldable pub starts_with : List Value → List Value → Bool
  starts_with input [] = true
  starts_with [] (_ ∷ _) = false
  starts_with (x ∷ input) (y ∷ prefix) = value_eq y x && starts_with input prefix

  unfoldable pub metadata_of : Fields → Result ApiError Fields
  metadata_of body =
      ok_or (as_object (unwrap_or (get body "client_metadata") (json_object [])))
        (invalid "client_metadata" "client_metadata must be an object")

  abbrev pub parameters_of : Fields → Fields → Value
  parameters_of kept prewarm = make (
      array (
        make (object (remove (remove kept "input") "client_metadata"))
        ∷ index (make (object prewarm)) "input"
        ∷ []))

  abbrev pub continued : Fields → String → List Value → Fields
  continued body id input =
      insert (insert body "previous_response_id" (json_string id)) "input" (make (array input))

abbrev pub metadata_names : List String
metadata_names =
    "session_id" ∷ "thread_id" ∷ "x-codex-turn-state" ∷ "x-codex-turn-metadata"
    ∷ "x-codex-window-id" ∷ "x-codex-parent-thread-id" ∷ "x-openai-subagent"
    ∷ "x-openai-memgen-request" ∷ "x-client-request-id" ∷ []

abbrev pub stays_header : String → Bool
stays_header name = if str_eq name "session_id" then true else str_eq name "thread_id"

module _ ⦃J : Json⦄ ⦃H : Headers⦄ where
  open J use {Value, Fields, make, get, insert, remove, value_eq}
  open H use {HeaderMap, to_utf8, remove_header, headers_eq}

  -- The loop that copies headers into the metadata.
  unfoldable pub copy_metadata :
      List String → HeaderMap → Fields → Result ApiError (HeaderMap × Fields)
  copy_metadata [] headers metadata = ok (headers, metadata)
  copy_metadata (name ∷ names) headers metadata = elim (get_header headers name) [
    | none ↦ copy_metadata names headers metadata
    | some value ↦ elim (to_utf8 value) [
      | none ↦ err (invalid name "request metadata must be text")
      | some written ↦
          copy_metadata names (if stays_header name then headers else remove_header headers name)
            (insert metadata name (json_string written))
    ]
  ]

  -- A turn; its body is an object, which is what the normalization makes of it.
  pub record Turn : Type 0 where
    pub body : Fields
    pub headers : HeaderMap
    pub model : Value

  -- The session's own state. Of its socket only whether it is there is kept.
  pub record Actor : Type 0 where
    pub key : Option SessionKey
    pub request_key : String
    pub connected : Bool
    pub handshake_headers : HeaderMap
    pub upstream_response_id : Option String
    pub snapshot : Option Snapshot
    pub bytes : ℕ

  -- What a turn comes to before the upstream is asked: the full history, the request that is left,
  -- the headers of the connection, the warmup, and the parameters that a context is bound to.
  pub record Plan : Type 0 where
    pub input : List Value
    pub body : Fields
    pub headers : HeaderMap
    pub prewarm : Fields
    pub parameters : Value

  unfoldable pub plan : Actor → Turn → Result ApiError Plan
  plan actor turn = do
    previous ← previous_id_of (get turn.body "previous_response_id")
    given ← input_of (get turn.body "input")
    input ← history_of (is_some actor.key) actor.snapshot previous given
    let body = remove turn.body "previous_response_id"
    metadata ← metadata_of body
    (headers, copied) ←
        copy_metadata metadata_names (codex_request_headers turn.headers (make (object body)))
          metadata
    (prewarm, kept) ←
        map_err (λ _. gateway "Failed to prepare the upstream Responses session")
          (responses_lite_prewarm
            (make (object (insert body "client_metadata" (make (object copied))))) turn.model
            actor.request_key)
    ok (record {
      input = input;
      body = kept;
      headers = headers;
      prewarm = prewarm;
      parameters = parameters_of kept prewarm;
    })

  -- The upstream: whether a handshake succeeds, the answer to a warmup, and whether the socket takes
  -- a request.
  pub record Peer : Type 0 where
    pub connects : HeaderMap → Bool
    pub warm_up : Value → Result UpstreamWebSocketError String
    pub takes : Value → Bool

  -- The connection is used again if it was made with the same headers.
  unfoldable pub connect : Peer → HeaderMap → Actor → Result ApiError Actor
  connect peer headers actor =
      if actor.connected && headers_eq actor.handshake_headers headers
      then ok actor
      else if peer.connects headers
      then ok (record actor {
        connected = true;
        handshake_headers = headers;
        upstream_response_id = none;
      })
      else err (gateway "Failed to connect to the upstream WebSocket")

  abbrev pub is_latest : Option String → String → Bool
  is_latest none id = false
  is_latest (some latest) id = str_eq latest id

  -- The snapshot that the upstream still holds and that the history goes on from.
  unfoldable pub incremental : Plan → Actor → Option Snapshot
  incremental p actor =
      filter_option
        (λ (s : Snapshot).
          is_latest actor.upstream_response_id s.response_id
          && value_eq s.parameters p.parameters
          && starts_with p.input s.input)
        actor.snapshot

  -- The history and the parameters, which `prepare` returns, and the request that was sent.
  pub record Prepared : Type 0 where
    pub input : List Value
    pub parameters : Value
    pub sent : Fields

  abbrev pub send_body : Peer → Plan → Actor → Fields → Actor × Result ApiError Prepared
  send_body peer p actor sent =
      if peer.takes (make (object sent))
      then (actor, ok (record { input = p.input; parameters = p.parameters; sent = sent }))
      else (actor, err (gateway "Failed to send the upstream WebSocket request"))

  abbrev pub after_warmup :
      Peer → Plan → Actor → Result UpstreamWebSocketError String → Actor × Result ApiError Prepared
  after_warmup peer p actor (err _) =
      (actor, err (gateway "Failed to prepare the upstream Responses session"))
  after_warmup peer p actor (ok id) = send_body peer p actor (continued p.body id p.input)

  -- The request on the connection: it goes on from the snapshot, or starts a new context.
  unfoldable pub converse : Peer → Plan → Actor → Actor × Result ApiError Prepared
  converse peer p actor = elim (incremental p actor) [
    | some snapshot ↦
        send_body peer p actor
          (continued p.body snapshot.response_id (skip (length snapshot.input) p.input))
    | none ↦
        after_warmup peer p (record actor { upstream_response_id = none })
          (peer.warm_up (make (object (remove p.prewarm "previous_response_id"))))
  ]

  abbrev pub on_connection :
      Peer → Plan → Actor → Result ApiError Actor → Actor × Result ApiError Prepared
  on_connection peer p before (err e) = (before, err e)
  on_connection peer p before (ok actor) = converse peer p actor

  unfoldable pub prepare : Peer → Actor → Turn → Actor × Result ApiError Prepared
  prepare peer actor turn = elim (plan actor turn) [
    | err e ↦ (actor, err e)
    | ok p ↦ on_connection peer p actor (connect peer p.headers actor)
  ]
