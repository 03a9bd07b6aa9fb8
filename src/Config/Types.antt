-- ===== src/Config/Types.antt =====
-- src/config.rs: the configuration. Paths are strings, and a secret is the string it exposes.
use codex_api.Common.{ℕ, Bool, Option, List, String}
use codex_api.Store.Decimals.{Decimals}

-- What the source uses of the crate url.
pub record Urls : Type 1 where
  pub Url : Type 0
  pub scheme : Url → String

pub record ServerConfig : Type 0 where
  pub listen : String
  pub enable_websockets : Bool

pub record StateConfig : Type 0 where
  pub path : String
  pub file_mode : ℕ

module _ ⦃U : Urls⦄ where
  open U use {Url}

  pub record UpstreamConfig : Type 0 where
    pub base_url : Url
    pub oauth_token_url : Url
    pub auth_file : String
    pub supports_websockets : Bool

module _ ⦃D : Decimals⦄ where
  open D use {Decimal}

  pub record ApiKeyConfig : Type 0 where
    pub id : String
    pub secret : String
    pub weekly_limit_usd : Option Decimal
    pub hard_limit_usd : Option Decimal

  pub record ModelPrice : Type 0 where
    pub input_usd_per_million : Decimal
    pub cached_input_usd_per_million : Decimal
    pub output_usd_per_million : Decimal
    pub max_reasoning_effort : Option String

module _ ⦃D : Decimals⦄ ⦃U : Urls⦄ where
  -- The prices are in the order in which the source's map iterates.
  pub record Config : Type 0 where
    pub server : ServerConfig
    pub state : StateConfig
    pub upstream : UpstreamConfig
    pub fallback_model : Option String
    pub api_keys : List ApiKeyConfig
    pub model_prices : List (String × ModelPrice)
