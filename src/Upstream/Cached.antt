-- ===== src/Upstream/Cached.antt =====
-- Calls of the upstream (src/upstream_http.rs) are tried again once, and its models are kept.
use codex_api.Common.{
  filter_option-some, ℕ, ◌≤◌, ◌≡◌, refl, inl, inr, length, Bool, true, false, Option, none, some,
  all, List, Result, ok, err, not, leb, ◌&&◌, ap, subst, and_then, ok-injective, Result-cases,
  Option-cases, Bool-cases, bind-ok, ok_or, ensure, filter_option, arith,
}
use codex_api.Json.{Json}
use codex_api.Json.Access.{as_array, get_field}
use codex_api.Store.Times.{Times}
use codex_api.Credentials.Refresh.{CredentialSnapshot}
use codex_api.Upstream.Attempts.{Manager, UpstreamHttpError, send_json, accept_second, unauthorized}
use codex_api.Upstream.Models.{
  ModelsResponse, CachedModels, is_fresh, is_named, named_models, read_models, models, keep,
  fetched, Models,
}

module _ {Response : Type 0} (status : Response → ℕ) where
  accept_second-authorized :
      (r : Result UpstreamHttpError Response) → unauthorized status (accept_second status r) ≡ false
  accept_second-authorized (err e) = refl
  accept_second-authorized (ok response) = ground arith

  -- A call of the upstream is tried with at most two credentials and asks for at most one refresh,
  -- and what it returns is never a refusal of the credential.
  pub send_json_retries_once :
      (manager : Manager) (send_once : CredentialSnapshot → Result UpstreamHttpError Response)
      → (length (send_json status manager send_once).1.attempts ≤ 2)
        × (length (send_json status manager send_once).1.refreshes ≤ 1)
        × (unauthorized status (send_json status manager send_once).0 ≡ false)
  unfolding send_json
  send_json_retries_once manager send_once = elim (Result-cases manager.credentials_now) [
    | inl (e, p) ↦ rw (p, send_json) (omega arith, omega arith, refl)
    | inr (first, p) ↦ elim (Bool-cases (unauthorized status (send_once first))) [
      | inr q ↦ rw (p, send_json) (rw (q, send_json) (omega arith, omega arith, q))
      | inl q ↦ elim (Result-cases (manager.refresh_after_unauthorized first.generation)) [
        | inl (e, r) ↦ rw (p, send_json) (rw (q, r, send_json) (omega arith, omega arith, refl))
        | inr (refreshed, r) ↦
            rw (p, send_json)
              (rw (q, r, send_json)
                (omega arith, omega arith, accept_second-authorized (send_once refreshed)))
      ]
    ]
  ]

module _ ⦃J : Json⦄ ⦃T : Times⦄ where
  open J use {Value}
  open T use {OffsetDateTime}

  abbrev pub cache_named : Option CachedModels → Bool
  cache_named none = true
  cache_named (some cached) = all is_named cached.models

  read_models-named :
      (response : ModelsResponse) (found : List Value)
      → read_models response ≡ ok found
      → all is_named found ≡ true
  unfolding read_models named_models
  read_models-named response found h =
      let (_, _, h1) =
        bind-ok (ensure (not (leb 400 response.status && leb response.status 599)) _) _ found h in
      let (payload, _, h2) = bind-ok (ok_or response.body _) _ found h1 in
      let seen = and_then (get_field payload "models") as_array in
      elim (Option-cases (filter_option (all is_named) seen)) [
        | inl p ↦ absurd (cc (rw p at h2))
        | inr (ms, p) ↦
            let e : ms ≡ found = ok-injective ms found (rw p at h2) in
            rw (← e) (filter_option-some (all is_named) seen ms p).1
      ]

  keep-named :
      (now : OffsetDateTime) (cache : Option CachedModels)
      (response : Result UpstreamHttpError ModelsResponse)
      → cache_named cache ≡ true
      → cache_named (keep now cache (fetched response)).1 ≡ true
  keep-named now cache response h = elim (Result-cases (fetched response)) [
    | inl (e, p) ↦ rw (p, keep) h
    | inr (found, p) ↦
        let (r, _, q) = bind-ok response read_models found p in
        rw (p, keep) (read_models-named r found q)
  ]

  keep-ok :
      (now : OffsetDateTime) (cache after : Option CachedModels)
      (r : Result UpstreamHttpError (List Value)) (found : List Value)
      → keep now cache r ≡ (ok found, after)
      → after ≡ some (record { fetched_at = now; models = found })
  keep-ok now cache after (err e) found h = absurd cc
  keep-ok now cache after (ok ms) found h = cc

  -- Where the models that were kept all have a name and a fetch succeeds, those that it leaves all
  -- have a name, and for an hour they are the answer to every call, with no call of the upstream.
  pub models_fetched_once :
      (manager again : Manager)
      (send_once send_later : CredentialSnapshot → Result UpstreamHttpError ModelsResponse)
      (now later : OffsetDateTime) (cache after : Option CachedModels) (found : List Value)
      → cache_named cache ≡ true
      → models manager send_once now cache ≡ ((ok found, after), true)
      → is_fresh later (record { fetched_at = now; models = found }) ≡ true
      → (cache_named after ≡ true)
        × (models again send_later later after ≡ ((ok found, after), false))
  unfolding models
  models_fetched_once manager again send_once send_later now later cache after found named h fresh =
      elim (Option-cases (filter_option (is_fresh now) cache)) [
        | inr (cached, p) ↦ absurd (cc (rw (p, models) at h))
        | inl p ↦
            let answered = (send_json (λ (r : ModelsResponse). r.status) manager send_once).0 in
            let kept : keep now cache (fetched answered) ≡ (ok found, after) =
              ap (λ (x : Models × Bool). x.0) (rw (p, models) at h) in
            let e = keep-ok now cache after (fetched answered) found kept in
            (
              subst (λ c. cache_named c ≡ true) (ap (λ (x : Models). x.1) kept)
                  (keep-named now cache answered named),
              rw (e, models)
                  (rw (fresh, models)
                    (ap
                      (λ (c : Option CachedModels).
                        let r : Models × Bool = ((ok found, c), false) in r)
                      e)),
            )
      ]
