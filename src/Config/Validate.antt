-- ===== src/Config/Validate.antt =====
-- src/config.rs: `Config::validate` and `reasoning_effort_rank`.
use codex_api.Common.{
  ℕ, suc, Bool, false, ◌&&◌, ◌||◌, not, Option, none, some, is_some, is_none, List, [], ◌∷◌, any,
  is_empty, String, str_eq, codes, is_ascii_whitespace, Result, ok, ◌>>◌, ensure, if◌then◌else◌,
  map_option,
}
use codex_api.Store.Decimals.{Decimals}
use codex_api.Config.Types.{Urls, Config, ApiKeyConfig, ModelPrice}

pub data ConfigError : Type 0 where
  empty_state_path empty_auth_file base_url_scheme oauth_token_url_scheme websockets_unsupported :
      ConfigError
  no_api_keys empty_key_id empty_secret secret_whitespace duplicate_secret : ConfigError
  duplicate_key_id : String → ConfigError
  negative_weekly_limit negative_hard_limit hard_not_above_weekly hard_below_weekly : ConfigError
  no_models empty_model : ConfigError
  negative_input_price negative_cached_input_price negative_output_price invalid_max_effort :
      String → ConfigError
  empty_fallback : ConfigError
  fallback_without_price : String → ConfigError

abbrev pub reasoning_efforts : List String
reasoning_efforts = "none" ∷ "minimal" ∷ "low" ∷ "medium" ∷ "high" ∷ "xhigh" ∷ "max" ∷ "ultra" ∷ []

unfoldable pub position : String → List String → Option ℕ
position value [] = none
position value (effort ∷ efforts) =
    let rest = map_option suc (position value efforts) in
    if str_eq effort value then some 0 else rest

unfoldable pub reasoning_effort_rank : String → Option ℕ
reasoning_effort_rank value = position value reasoning_efforts

module _ ⦃D : Decimals⦄ where
  open D use {Decimal, ge, is_negative}

  unfoldable pub find_price : String → List (String × ModelPrice) → Option ModelPrice
  find_price model [] = none
  find_price model ((name, price) ∷ prices) =
      if str_eq name model then some price else find_price model prices

  abbrev pub is_negative_limit : Option Decimal → Bool
  is_negative_limit none = false
  is_negative_limit (some limit) = is_negative limit

  unfoldable pub validate_limits :
      Bool → Option Decimal → Option Decimal → Result ConfigError (Unit {0})
  validate_limits has_fallback (some soft) (some hard) = do
    ensure (not (has_fallback && ge soft hard)) hard_not_above_weekly
    ensure (ge hard soft) hard_below_weekly
  validate_limits has_fallback _ _ = ok tt

  -- `ids` and `secrets` are the sets of what came before.
  unfoldable pub validate_key :
      Bool → List String → List String → ApiKeyConfig → Result ConfigError (Unit {0})
  validate_key has_fallback ids secrets key = do
    ensure (not (str_eq key.id "")) empty_key_id
    ensure (not (str_eq key.secret "")) empty_secret
    ensure (not (any is_ascii_whitespace (codes key.secret))) secret_whitespace
    ensure (not (any (str_eq key.id) ids)) (duplicate_key_id key.id)
    ensure (not (any (str_eq key.secret) secrets)) duplicate_secret
    ensure (not (is_negative_limit key.weekly_limit_usd)) negative_weekly_limit
    ensure (not (is_negative_limit key.hard_limit_usd)) negative_hard_limit
    validate_limits has_fallback key.weekly_limit_usd key.hard_limit_usd

  unfoldable pub validate_keys :
      Bool → List String → List String → List ApiKeyConfig → Result ConfigError (Unit {0})
  validate_keys has_fallback ids secrets [] = ok tt
  validate_keys has_fallback ids secrets (key ∷ keys) = do
    validate_key has_fallback ids secrets key
    validate_keys has_fallback (key.id ∷ ids) (key.secret ∷ secrets) keys

  abbrev pub is_invalid_effort : Option String → Bool
  is_invalid_effort none = false
  is_invalid_effort (some effort) = is_none (reasoning_effort_rank effort)

  unfoldable pub validate_price : String → ModelPrice → Result ConfigError (Unit {0})
  validate_price model price = do
    ensure (not (str_eq model "")) empty_model
    ensure (not (is_negative price.input_usd_per_million)) (negative_input_price model)
    ensure (not (is_negative price.cached_input_usd_per_million))
        (negative_cached_input_price model)
    ensure (not (is_negative price.output_usd_per_million)) (negative_output_price model)
    ensure (not (is_invalid_effort price.max_reasoning_effort)) (invalid_max_effort model)

  unfoldable pub validate_prices : List (String × ModelPrice) → Result ConfigError (Unit {0})
  validate_prices [] = ok tt
  validate_prices ((model, price) ∷ prices) = do validate_price model price; validate_prices prices

  unfoldable pub validate_fallback :
      Option String → List (String × ModelPrice) → Result ConfigError (Unit {0})
  validate_fallback none prices = ok tt
  validate_fallback (some model) prices = do
    ensure (not (str_eq model "")) empty_fallback
    ensure (is_some (find_price model prices)) (fallback_without_price model)

module _ ⦃D : Decimals⦄ ⦃U : Urls⦄ where
  open U use {Url, scheme}

  abbrev pub is_http : Url → Bool
  is_http url = str_eq (scheme url) "http" || str_eq (scheme url) "https"

  unfoldable pub validate : Config → Result ConfigError (Unit {0})
  validate config = do
    ensure (not (str_eq config.state.path "")) empty_state_path
    ensure (not (str_eq config.upstream.auth_file "")) empty_auth_file
    ensure (is_http config.upstream.base_url) base_url_scheme
    ensure (is_http config.upstream.oauth_token_url) oauth_token_url_scheme
    ensure (not (config.server.enable_websockets && not config.upstream.supports_websockets))
        websockets_unsupported
    ensure (not (is_empty config.api_keys)) no_api_keys
    validate_keys (is_some config.fallback_model) [] [] config.api_keys
    ensure (not (is_empty config.model_prices)) no_models
    validate_prices config.model_prices
    validate_fallback config.fallback_model config.model_prices
