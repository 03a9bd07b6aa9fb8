-- ===== src/Config/Validated.antt =====
-- What a validated configuration (src/config.rs) guarantees.
use codex_api.Common.{
  ◌≡◌, ◌≢◌, inl, inr, false, Option, none, some, List, [], ◌∷◌, String, ok, err, Result-cases,
  Option-cases, arith,
}
use codex_api.Store.Decimals.{Decimals}
use codex_api.Config.Types.{Urls, Config, ModelPrice}
use codex_api.Config.Validate.{
  find_price, is_invalid_effort, validate_price, validate_prices, validate_fallback, validate,
}
use codex_api.Config.Models.{
  ConfigPanic, capped, capped_effort, effective_model, fallback_candidate, model_candidates,
}

module _ ⦃D : Decimals⦄ where
  validate_price-effort :
      (name : String) (price : ModelPrice)
      → validate_price name price ≡ ok tt
      → is_invalid_effort price.max_reasoning_effort ≡ false
  unfolding validate_price
  validate_price-effort name price h = ground arith

  validate_prices-effort :
      (model : String) (prices : List (String × ModelPrice)) (price : ModelPrice)
      → validate_prices prices ≡ ok tt
      → find_price model prices ≡ some price
      → is_invalid_effort price.max_reasoning_effort ≡ false
  unfolding validate_prices find_price
  validate_prices-effort model [] price h f = absurd cc
  validate_prices-effort model ((name, p) ∷ prices) price h f =
      ground (arith, validate_price-effort name p, validate_prices-effort model prices price)

  capped_effort-total :
      (maximum : Option String) (requested : Option String) (e : ConfigPanic)
      → is_invalid_effort maximum ≡ false
      → capped_effort maximum requested ≢ err e
  unfolding capped_effort capped
  capped_effort-total maximum none e v h = cc
  capped_effort-total none (some r) e v h = cc
  capped_effort-total (some m) (some r) e v h = ground (arith, v)

module _ ⦃D : Decimals⦄ ⦃U : Urls⦄ where
  validate-prices :
      (config : Config) → validate config ≡ ok tt → validate_prices config.model_prices ≡ ok tt
  unfolding validate
  validate-prices config h = ground (arith, h)

  validate-fallback :
      (config : Config)
      → validate config ≡ ok tt
      → validate_fallback config.fallback_model config.model_prices ≡ ok tt
  unfolding validate
  validate-fallback config h = ground (arith, h)

  effective_model-total :
      (config : Config) (model : String) (requested : Option String) (e : ConfigPanic)
      → validate config ≡ ok tt
      → effective_model config model requested ≢ err e
  unfolding effective_model
  effective_model-total config model requested e v h =
      elim (Option-cases (find_price model config.model_prices)) [
        | inl p ↦ cc (rw (p, effective_model) at h)
        | inr (price, p) ↦
            elim (Result-cases (capped_effort price.max_reasoning_effort requested)) [
              | inl (e', q) ↦
                  capped_effort-total price.max_reasoning_effort requested e'
                    (validate_prices-effort model config.model_prices price
                      (validate-prices config v) p)
                    q
              | inr (effort, q) ↦ cc (rw (p, q, effective_model) at h)
            ]
      ]

  effective_model-priced :
      (config : Config) (model : String) (requested : Option String)
      → effective_model config model requested ≡ ok none
      → find_price model config.model_prices ≡ none
  unfolding effective_model
  effective_model-priced config model requested h =
      elim (Option-cases (find_price model config.model_prices)) [
        | inl p ↦ p
        | inr (price, p) ↦
            elim (Result-cases (capped_effort price.max_reasoning_effort requested)) [
              | inl (e', q) ↦ cc (rw (p, q, effective_model) at h)
              | inr (effort, q) ↦ cc (rw (p, q, effective_model) at h)
            ]
      ]

  fallback_candidate-total :
      (config : Config) (fallback requested : Option String) (e : ConfigPanic)
      → validate config ≡ ok tt
      → validate_fallback fallback config.model_prices ≡ ok tt
      → fallback_candidate config fallback requested ≢ err e
  unfolding fallback_candidate validate_fallback
  fallback_candidate-total config none requested e v w h = cc
  fallback_candidate-total config (some fallback) requested e v w h =
      elim (Result-cases (effective_model config fallback requested)) [
        | inl (e', p) ↦ effective_model-total config fallback requested e' v p
        | inr (none, p) ↦
            let q = effective_model-priced config fallback requested p in ground (arith, q, w)
        | inr (some m, p) ↦ cc (rw (p, fallback_candidate) at h)
      ]

  -- With a configuration that passed validation, neither `expect` of `model_candidates` fails,
  -- whatever model and effort a request names.
  pub model_candidates_total :
      (config : Config) (model : String) (requested : Option String) (e : ConfigPanic)
      → validate config ≡ ok tt
      → model_candidates config model requested ≢ err e
  unfolding model_candidates
  model_candidates_total config model requested e v h =
      elim (Result-cases (effective_model config model requested)) [
        | inl (e', p) ↦ effective_model-total config model requested e' v p
        | inr (none, p) ↦ cc (rw (p, model_candidates) at h)
        | inr (some m, p) ↦
            elim (Result-cases (fallback_candidate config config.fallback_model requested)) [
              | inl (e', q) ↦
                  fallback_candidate-total config config.fallback_model requested e' v
                    (validate-fallback config v) q
              | inr (fallback, q) ↦ cc (rw (p, q, model_candidates) at h)
            ]
      ]
