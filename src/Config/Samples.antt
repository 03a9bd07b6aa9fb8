-- ===== src/Config/Samples.antt =====
-- A configuration, on which the tests of src/config.rs and src/auth.rs run.
use codex_api.Common.{◌≡◌, refl, true, none, some, [], ◌∷◌, ok}
use codex_api.Store.Plain.{scaled, scaled_decimals}
use codex_api.Config.Plain.{plain_urls}
use codex_api.Config.Types.{Config, ApiKeyConfig, ModelPrice}
use codex_api.Config.Validate.{
  validate, validate_keys, validate_key, validate_limits, validate_prices, validate_price,
  validate_fallback, find_price, reasoning_effort_rank, position,
}

abbrev pub alice : ApiKeyConfig
alice = record {
  id = "alice";
  secret = "sk-a";
  weekly_limit_usd = some (scaled 5 0);
  hard_limit_usd = some (scaled 60000 2);
}

abbrev pub bob : ApiKeyConfig
bob = record { id = "bob"; secret = "sk-b"; weekly_limit_usd = none; hard_limit_usd = none }

abbrev pub price : ModelPrice
price = record {
  input_usd_per_million = scaled 125 2;
  cached_input_usd_per_million = scaled 13 2;
  output_usd_per_million = scaled 1000 2;
  max_reasoning_effort = some "high";
}

abbrev pub sample : Config
sample = record {
  server = record { listen = "127.0.0.1:8080"; enable_websockets = true };
  state = record { path = "state.db"; file_mode = 384 };
  upstream = record {
    base_url = ("https", "//chatgpt.com/backend-api/codex");
    oauth_token_url = ("https", "//auth.openai.com/oauth/token");
    auth_file = "auth.json";
    supports_websockets = true;
  };
  fallback_model = some "gpt-5-mini";
  api_keys = alice ∷ bob ∷ [];
  model_prices = ("gpt-5", price) ∷ ("gpt-5-mini", price) ∷ [];
}

pub sample_validates : validate sample ≡ ok tt
unfolding validate validate_keys validate_key validate_limits validate_prices validate_price
    validate_fallback find_price reasoning_effort_rank position
sample_validates = refl

pub keys_validate : validate_keys true [] [] (alice ∷ bob ∷ []) ≡ ok tt
unfolding validate_keys validate_key validate_limits
keys_validate = refl
