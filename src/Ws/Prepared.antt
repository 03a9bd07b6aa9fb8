-- ===== src/Ws/Prepared.antt =====
-- What src/ws.rs sends upstream for a message of a WebSocket session.
use codex_api.Common.{
  ◌≡◌, ◌∙◌, refl, sym, ap, subst, Result, err, not, true, false, Option, none, some, is_some, ok,
  ok_or, String, str_eq, bind-ok, ensure, ensure-ok, ok-injective, unwrap_or, map_err, and_then,
}
use codex_api.Json.{Json, null, bool}
use codex_api.Json.Access.{as_bool, as_str, as_object, index, get_field}
use codex_api.Json.Objects.{get_field-object, index-insert}
use codex_api.Store.Decimals.{Decimals}
use codex_api.Store.Types.{ModelCandidates}
use codex_api.Config.Types.{Urls, Config}
use codex_api.Config.Models.{model_candidates}
use codex_api.Auth.Authenticate.{ClientIdentity}
use codex_api.Chat.Request.Sent.{as_bool-make}
use codex_api.Http.Normalize.{wrap_input}
use codex_api.Http.Normalized.{wrap_input-others, wrap_input-str, is_none}
use codex_api.Ws.Prepare.{
  panic, is_create, refuses_stream, refuses_store, prepared_payload, PreparedRequest, validation_of,
  prepare_request,
}

module _ ⦃J : Json⦄ where
  open J use {Value, Fields, make, get, insert, get-insert}

  -- What a payload promises the upstream.
  abbrev pub Streams : Value → Type 0
  Streams payload =
      (as_bool (index payload "stream") ≡ some true)
      × (as_bool (index payload "store") ≡ some false)
      × (get_field payload "background" ≡ none)
      × (get_field payload "max_output_tokens" ≡ none)
      × (as_str (index payload "input") ≡ none)

  get_kept :
      (request : Fields) (k : String)
      → str_eq "stream" k ≡ false
      → str_eq "store" k ≡ false
      → get_field (prepared_payload request) k ≡ get (wrap_input (get request "input") request) k
  unfolding prepared_payload
  get_kept request k a b =
      get_field-object _ k
      ∙ rw
          (
            get-insert
                (insert (wrap_input (get request "input") request) "store" (make (bool false)))
                "stream" k (make (bool true)),
            a,
            get-insert (wrap_input (get request "input") request) "store" k (make (bool false)),
            b,
          )
          refl

  prepared_payload-Streams :
      (request : Fields)
      → get request "background" ≡ none
      → get request "max_output_tokens" ≡ none
      → Streams (prepared_payload request)
  unfolding prepared_payload index
  prepared_payload-Streams request b m =
      let wrapped = wrap_input (get request "input") request in
      let stored = insert wrapped "store" (make (bool false)) in
      (
        ap as_bool (index-insert stored "stream" "stream" (make (bool true))) ∙ as_bool-make true,
        ap as_bool (
              index-insert stored "stream" "store" (make (bool true))
              ∙ index-insert wrapped "store" "store" (make (bool false)))
            ∙ as_bool-make false,
        get_kept request "background" refl refl
            ∙ wrap_input-others (get request "input") request "background" refl
            ∙ b,
        get_kept request "max_output_tokens" refl refl
            ∙ wrap_input-others (get request "input") request "max_output_tokens" refl
            ∙ m,
        ap (λ (o : Option Value). as_str (unwrap_or o (make null)))
              (get_kept request "input" refl refl)
            ∙ wrap_input-str request,
      )

module _ ⦃J : Json⦄ ⦃D : Decimals⦄ ⦃U : Urls⦄ where
  open J use {Value, Fields, get}

  validation_of-Streams :
      (value payload : Value) (config : Config) (candidates : ModelCandidates)
      → validation_of value config ≡ ok (payload, candidates)
      → Streams payload
  unfolding validation_of
  validation_of-Streams value payload config candidates h =
      let out : Value × ModelCandidates = (payload, candidates) in
      let (request, _, h1) = bind-ok (ok_or (as_object value) _) _ out h in
      let (_, _, h2) =
        bind-ok (ensure (is_create (and_then (get request "type") as_str)) _) _ out h1 in
      let (model, _, h3) = bind-ok (ok_or (and_then (get request "model") as_str) _) _ out h2 in
      let (found, _, h4) =
        bind-ok
          (map_err panic (
            model_candidates config model
              (and_then (and_then (get request "reasoning") (λ v. get_field v "effort")) as_str)))
          _ out h3 in
      let (_, _, h5) = bind-ok (ok_or found _) _ out h4 in
      let (_, _, h6) = bind-ok (ensure (not (refuses_stream (get request "stream"))) _) _ out h5 in
      let (u, b, h7) = bind-ok (ensure (not (is_some (get request "background"))) _) _ out h6 in
      let (w, m, h8) =
        bind-ok (ensure (not (is_some (get request "max_output_tokens"))) _) _ out h7 in
      let (_, _, h9) = bind-ok (ensure (not (refuses_store (get request "store"))) _) _ out h8 in
      let e = ap (λ (x : Value × ModelCandidates). x.0) (ok-injective _ out h9) in
      subst Streams e (
        prepared_payload-Streams request (is_none (get request "background") (ensure-ok _ _ u b))
          (is_none (get request "max_output_tokens") (ensure-ok _ _ w m)))

  pub map_err-ok :
      {E F A : Type 0} (f : E → F) (r : Result E A) (a : A) → map_err f r ≡ ok a → r ≡ ok a
  map_err-ok f (ok b) a h = ap ok (ok-injective b a h)
  map_err-ok f (err e) a h = absurd cc

  -- A message that `prepare_request` accepts goes upstream as a request that streams, is not
  -- stored, has neither a limit on its output nor a background flag, and has no plain text as its
  -- input. It is accounted to the client's key.
  pub prepare_request_sends :
      (value : Value) (config : Config) (identity : ClientIdentity) (prepared : PreparedRequest)
      → prepare_request value config identity ≡ ok prepared
      → Streams prepared.payload × (prepared.context.api_key_id ≡ identity.id)
  unfolding prepare_request
  prepare_request_sends value config identity prepared h =
      let (read, p, k) =
        bind-ok (map_err (λ e. (value, e)) (validation_of value config)) _ prepared h in
      let q = map_err-ok (λ e. (value, e)) (validation_of value config) read p in
      let e = ok-injective _ prepared k in
      (
        subst Streams (ap (λ (x : PreparedRequest). x.payload) e)
            (validation_of-Streams value read.0 config read.1 q),
        sym (ap (λ (x : PreparedRequest). x.context.api_key_id) e),
      )
