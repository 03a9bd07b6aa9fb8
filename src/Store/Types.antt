-- ===== src/Store/Types.antt =====
-- src/store.rs: the types of the store.
use codex_api.Common.{ℕ, Option, String}
use codex_api.Store.Decimals.{Decimals}
use codex_api.Store.Times.{Times}

pub data ApiProtocol : Type 0 where
  responses chat_completions : ApiProtocol

unfoldable pub protocol_str : ApiProtocol → String
protocol_str responses = "responses"
protocol_str chat_completions = "chat_completions"

pub data Transport : Type 0 where
  http_sse web_socket : Transport

unfoldable pub transport_str : Transport → String
transport_str http_sse = "http_sse"
transport_str web_socket = "websocket"

pub record RequestContext : Type 0 where
  pub api_key_id : String
  pub api_protocol : ApiProtocol
  pub transport : Transport

pub data ModelAccess : Type 0 where
  everything fallback_only blocked : ModelAccess

pub data FinalStatus : Type 0 where
  completed incomplete rejected upstream_error canceled internal_error : FinalStatus

unfoldable pub status_str : FinalStatus → String
status_str completed = "completed"
status_str incomplete = "incomplete"
status_str rejected = "rejected"
status_str upstream_error = "upstream_error"
status_str canceled = "canceled"
status_str internal_error = "internal_error"

-- `RequestId` is the row's key.
pub data StoreError : Type 0 where
  io database migration credentials_not_initialized : StoreError
  request_not_started : ℕ → StoreError
  invalid_usage usage_out_of_range cost_out_of_range timestamp_out_of_range : StoreError

module _ ⦃T : Times⦄ where
  open T use {OffsetDateTime}

  -- `CredentialSeed` has the same fields.
  pub record Credential : Type 0 where
    pub account_id : String
    pub access_token : String
    pub refresh_token : String
    pub access_expires_at : Option OffsetDateTime
    pub last_refresh : OffsetDateTime

module _ ⦃D : Decimals⦄ where
  open D use {Decimal}

  pub record QuotaLimits : Type 0 where
    pub weekly_limit_usd : Option Decimal
    pub hard_limit_usd : Option Decimal

  pub record ModelRates : Type 0 where
    pub input_usd_per_million : Decimal
    pub cached_input_usd_per_million : Decimal
    pub output_usd_per_million : Decimal

  pub record EffectiveModel : Type 0 where
    pub model : String
    pub reasoning_effort : Option String
    pub rates : ModelRates

  pub record ModelCandidates : Type 0 where
    pub primary : EffectiveModel
    pub fallback : Option EffectiveModel

  pub record BillableUsage : Type 0 where
    pub input_tokens : ℕ
    pub cached_input_tokens : ℕ
    pub output_tokens : ℕ
    pub rates : ModelRates

  pub data Admission : Type 0 where
    admitted : ℕ → EffectiveModel → Admission
    weekly_quota_exceeded : Admission
