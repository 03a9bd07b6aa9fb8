-- ===== src/Http/Responses.antt =====
-- src/http_api.rs: the handler `responses`, up to the turn that it hands to the sessions. A panic is
-- `none`.
use codex_api.Common.{
  ℕ, Option, none, some, String, ◌⧺◌, Result, ok, err, and_then, filter_option, unwrap_or, ok_or,
}
use codex_api.Json.{Json}
use codex_api.Json.Access.{as_str, get_field, pointer}
use codex_api.Store.Decimals.{Decimals}
use codex_api.Store.Times.{Times}
use codex_api.Store.Types.{
  ApiProtocol, Transport, http_sse, responses as responses_protocol, ModelCandidates, ModelRates,
  EffectiveModel, Admission, admitted, weekly_quota_exceeded,
}
use codex_api.Store.Ledger.{Ledger}
use codex_api.Store.Requests.{Outcome, begin_request, record_rejection}
use codex_api.Errors.Api.{ApiError, invalid, internal, quota_exceeded, gateway}
use codex_api.Config.Types.{Urls, Config}
use codex_api.Config.Models.{model_candidates, apply_effective_request}
use codex_api.Auth.Headers.{Headers}
use codex_api.Auth.Authenticate.{ClientIdentity, authenticate}
use codex_api.Chat.Upstream.{show_number}
use codex_api.Pending.Handle.{Handle, new, Circumstances, drop}
use codex_api.Upstream.Warmup.{uses_lite}
use codex_api.Sessions.Key.{SessionKey, from_headers}
use codex_api.Http.Normalize.{normalize_responses_request}

module _ ⦃D : Decimals⦄ ⦃T : Times⦄ where
  unfoldable pub admit_request :
      Circumstances
      → ClientIdentity
      → ModelCandidates
      → ApiProtocol
      → Transport
      → Ledger
      → Outcome Admission
  admit_request c identity candidates protocol transport l =
      begin_request c.db c.others
        (record { api_key_id = identity.id; api_protocol = protocol; transport = transport })
        identity.quota candidates c.now l

  unfoldable pub reject_request :
      Circumstances → ClientIdentity → String → Option String → ApiProtocol → Ledger → Outcome ℕ
  reject_request c identity model effort protocol l =
      record_rejection c.db.1
        (record { api_key_id = identity.id; api_protocol = protocol; transport = http_sse }) model
        effort (some 400) c.now l

module _ ⦃J : Json⦄ where
  open J use {Value, from_str}

  unfoldable pub requested_string : Value → String → Option String
  requested_string value field = and_then (get_field value field) as_str

module _ ⦃J : Json⦄ ⦃H : Headers⦄ ⦃D : Decimals⦄ where
  open J use {Value}
  open H use {HeaderMap}

  -- The turn that is handed to the sessions, with its key.
  pub record HandedOn : Type 0 where
    pub key : Option SessionKey
    pub body : Value
    pub model : Value
    pub headers : HeaderMap
    pub request_key : String
    pub handle : Handle
    pub rates : ModelRates

module _ ⦃J : Json⦄ ⦃H : Headers⦄ ⦃D : Decimals⦄ ⦃T : Times⦄ ⦃U : Urls⦄ where
  open J use {Value, from_str}
  open H use {HeaderMap}

  abbrev pub Answer : Type 0
  Answer = Option (Result ApiError HandedOn × Ledger)

  abbrev pub after_rejection : ApiError → Outcome ℕ → Answer
  after_rejection error (err _, l) = some (err internal, l)
  after_rejection error (ok _, l) = some (err error, l)

  -- A request that is dropped before it is handed on is finalized by its handle. `found` is the
  -- answer to the request for the upstream's model.
  abbrev pub hand_on :
      Circumstances
      → Option SessionKey
      → HeaderMap
      → ℕ
      → EffectiveModel
      → Value
      → Result ApiError Value
      → Ledger
      → Answer
  hand_on d key headers id effective body (err e) l = some (err e, (drop d (new id) l).1)
  hand_on d key headers id effective body (ok model) l = some (
    ok (record {
      key = key;
      body = body;
      model = model;
      headers = headers;
      request_key = "codex-api-" ⧺ show_number id;
      handle = new id;
      rates = effective.rates;
    }),
    l,
  )

  -- The models of the upstream, as the client answers for them.
  abbrev pub lite_only : Result ApiError (Option Value) → Result ApiError Value
  lite_only (err _) = err (gateway "Upstream models request failed")
  lite_only (ok found) =
      ok_or (filter_option uses_lite found)
        (gateway "Upstream model does not support Responses Lite")

  abbrev pub after_admission :
      Circumstances
      → (String → Result ApiError (Option Value))
      → Option SessionKey
      → HeaderMap
      → Value
      → Outcome Admission
      → Answer
  after_admission d model_of key headers body (err _, l) = some (err internal, l)
  after_admission d model_of key headers body (ok weekly_quota_exceeded, l) =
      some (err quota_exceeded, l)
  after_admission d model_of key headers body (ok (admitted id effective), l) =
      elim (apply_effective_request body effective) [
        | none ↦ none
        | some applied ↦
            hand_on d key headers id effective applied (lite_only (model_of effective.model)) l
      ]

  module _ (c d : Circumstances) (model_of : String → Result ApiError (Option Value))
      (config : Config) (headers : HeaderMap) where
    abbrev pub refuse : ClientIdentity → String → Option String → ApiError → Ledger → Answer
    refuse identity model effort error l =
        after_rejection error (reject_request c identity model effort responses_protocol l)

    unfoldable pub admit_parsed :
        ClientIdentity → Value → String → Option String → ModelCandidates → Ledger → Answer
    admit_parsed identity parsed model effort candidates l =
        elim (normalize_responses_request parsed) [
          | err e ↦ refuse identity model effort e l
          | ok body ↦ elim (from_headers identity.id headers) [
            | err e ↦ refuse identity model effort e l
            | ok key ↦
                after_admission d model_of key headers body
                  (admit_request c identity candidates responses_protocol http_sse l)
          ]
        ]

    unfoldable pub handle_parsed : ClientIdentity → Value → Ledger → Answer
    handle_parsed identity parsed l =
        let model = unwrap_or (requested_string parsed "model") "" in
        let effort = and_then (pointer parsed "reasoning" "effort") as_str in
        elim (model_candidates config model effort) [
          | err _ ↦ none
          | ok none ↦ refuse identity model effort (invalid "model" "model is not configured") l
          | ok (some candidates) ↦ admit_parsed identity parsed model effort candidates l
        ]

    unfoldable pub responses : String → Ledger → Answer
    responses received l = elim (authenticate headers config.api_keys) [
      | err e ↦ some (err e, l)
      | ok identity ↦ elim (from_str received) [
        | none ↦ refuse identity "" none (invalid "request" "request body must be valid JSON") l
        | some parsed ↦ handle_parsed identity parsed l
      ]
    ]
