-- ===== src/Upstream/Models.antt =====
-- src/upstream_http.rs: the models of the upstream, which are kept for an hour.
use codex_api.Common.{
  ℕ, ◌*◌, not, leb, ltb_ℤ, ◌&&◌, Bool, true, false, Option, none, some, all, List, [], ◌∷◌, String,
  str_eq, Result, ok, err, ◌>>=◌, ◌>>◌, ensure, ok_or, and_then, filter_option, if◌then◌else◌,
}
use codex_api.Json.{Json}
use codex_api.Json.Access.{as_object, as_array, as_str, get_field}
use codex_api.Store.Times.{Times}
use codex_api.Store.Quota.{add_ℕ}
use codex_api.Upstream.Lite.{is_text}
use codex_api.Upstream.Attempts.{
  Manager, UpstreamHttpError, http_transport, invalid_models, send_json,
}
use codex_api.Credentials.Refresh.{CredentialSnapshot}

module _ ⦃J : Json⦄ where
  open J use {Value, Fields, get}

  -- A response: its status, and its body if that is JSON.
  pub record ModelsResponse : Type 0 where
    pub status : ℕ
    pub body : Option Value

  abbrev pub nonempty : Option String → Bool
  nonempty none = false
  nonempty (some s) = not (str_eq s "")

  abbrev pub slug_of : Value → Option String
  slug_of model = and_then (and_then (as_object model) (λ o. get o "slug")) as_str

  unfoldable pub is_named : Value → Bool
  is_named model = nonempty (slug_of model)

  unfoldable pub named_models : Value → Option (List Value)
  named_models payload =
      filter_option (all is_named) (and_then (get_field payload "models") as_array)

  -- `error_for_status` refuses client and server errors.
  unfoldable pub read_models : ModelsResponse → Result UpstreamHttpError (List Value)
  read_models response = do
    ensure (not (leb 400 response.status && leb response.status 599)) http_transport
    payload ← ok_or response.body http_transport
    ok_or (named_models payload) invalid_models

  -- `find` by the slug
  unfoldable pub find_model : String → List Value → Option Value
  find_model slug [] = none
  find_model slug (model ∷ models) =
      let rest = find_model slug models in
      if is_text slug (and_then (get_field model "slug") as_str) then some model else rest

module _ ⦃J : Json⦄ ⦃T : Times⦄ where
  open J use {Value}
  open T use {OffsetDateTime, unix_timestamp_nanos}

  pub record CachedModels : Type 0 where
    pub fetched_at : OffsetDateTime
    pub models : List Value

  unfoldable pub is_fresh : OffsetDateTime → CachedModels → Bool
  is_fresh now cached =
      ltb_ℤ (unix_timestamp_nanos now)
        (add_ℕ (unix_timestamp_nanos cached.fetched_at) (3600 * 1_000_000_000))

  abbrev pub Models : Type 0
  Models = Result UpstreamHttpError (List Value) × Option CachedModels

  abbrev pub keep :
      OffsetDateTime → Option CachedModels → Result UpstreamHttpError (List Value) → Models
  keep now cache (err e) = (err e, cache)
  keep now cache (ok models) = (ok models, some (record { fetched_at = now; models = models }))

  -- What the request for the models yields.
  abbrev pub fetched :
      Result UpstreamHttpError ModelsResponse → Result UpstreamHttpError (List Value)
  fetched answered = answered >>= read_models

  -- The result with the cache that is left, and whether the upstream was asked.
  unfoldable pub models :
      Manager
      → (CredentialSnapshot → Result UpstreamHttpError ModelsResponse)
      → OffsetDateTime
      → Option CachedModels
      → Models × Bool
  models manager send_once now cache = elim (filter_option (is_fresh now) cache) [
    | some cached ↦ ((ok cached.models, cache), false)
    | none ↦ (keep now cache (fetched (send_json (λ r. r.status) manager send_once).0), true)
  ]

  unfoldable pub model :
      Manager
      → (CredentialSnapshot → Result UpstreamHttpError ModelsResponse)
      → OffsetDateTime
      → String
      → Option CachedModels
      → Result UpstreamHttpError (Option Value) × Option CachedModels
  model manager send_once now slug cache =
      let (result, after) = (models manager send_once now cache).0 in
      (result >>= λ found. ok (find_model slug found), after)
