-- ===== src/Upstream/Tests.antt =====
-- Runs of the calls of the upstream (src/upstream_ws.rs and src/upstream_http.rs).
use codex_api.Common.{
  ℕ, ◌+◌, ◌≤◌, String, ◌≡◌, refl, length, nat_eq, true, false, Option, none, some, List, [], ◌∷◌,
  ok, err, Result, if◌then◌else◌,
}
use codex_api.Json.Plain.{plain_json}
use codex_api.Json.Trees.{
  Plain, p_bool, p_string, p_array, p_object, nil, cons, end, member, lookup,
}
use codex_api.Json.Access.{as_object, as_array, as_str, get_field}
use codex_api.Store.Plain.{nanosecond_times}
use codex_api.Store.Quota.{add_ℕ}
use codex_api.Store.Samples.{now, later}
use codex_api.Credentials.Refresh.{CredentialSnapshot}
use codex_api.Upstream.Attempts.{
  Manager, UpstreamHttpError, http_transport, send_json, unauthorized,
}
use codex_api.Upstream.Models.{
  ModelsResponse, CachedModels, is_fresh, is_named, named_models, read_models, models,
}
use codex_api.Upstream.Lite.{
  route_marker_tools, has_inline_tools, normalize_responses_lite_fields, prewarm_input, prewarm_of,
  responses_lite_prewarm,
}
use codex_api.Upstream.Cached.{cache_named, send_json_retries_once, models_fetched_once}
use codex_api.Upstream.Warmed.{responses_lite_prewarm_shares}

abbrev credential : ℕ → CredentialSnapshot
credential generation = record {
  access_token = "token";
  account_id = "acct";
  generation = generation;
}

abbrev manager : Manager
manager = record {
  credentials_now = ok (credential 1);
  refresh_after_unauthorized = λ generation. ok (credential (1 + generation));
}

-- The upstream knows the second credential only, and answers with a status.
abbrev knows_second : CredentialSnapshot → Result UpstreamHttpError ℕ
knows_second c = if nat_eq c.generation 2 then ok 200 else ok 401

retries : (send_json (λ s. s) manager knows_second).0 ≡ ok 200
unfolding send_json
retries = refl

send_json_retries_once_example :
    (length (send_json (λ s. s) manager knows_second).1.attempts ≤ 2)
    × (length (send_json (λ s. s) manager knows_second).1.refreshes ≤ 1)
    × (unauthorized (λ s. s) (send_json (λ s. s) manager knows_second).0 ≡ false)
send_json_retries_once_example = send_json_retries_once (λ s. s) manager knows_second

abbrev gpt : Plain
gpt =
    p_object
      (member "slug" (p_string "gpt-5") (member "base_instructions" (p_string "Be brief.") end))

abbrev lists_gpt : CredentialSnapshot → Result UpstreamHttpError ModelsResponse
lists_gpt c =
    ok (record {
      status = 200;
      body = some (p_object (member "models" (p_array (cons gpt nil)) end));
    })

abbrev kept_models : Option CachedModels
kept_models = some (record { fetched_at = now; models = gpt ∷ [] })

fetches : models manager lists_gpt now none ≡ ((ok (gpt ∷ []), kept_models), true)
unfolding models send_json read_models named_models is_named as_object as_array as_str get_field
fetches = refl

stays_fresh : is_fresh later (record { fetched_at = now; models = gpt ∷ [] }) ≡ true
unfolding is_fresh add_ℕ
stays_fresh = refl

models_fetched_once_example :
    (cache_named kept_models ≡ true)
    × (models manager (λ c. err http_transport) later kept_models
        ≡ ((ok (gpt ∷ []), kept_models), false))
models_fetched_once_example =
    models_fetched_once manager manager lists_gpt (λ c. err http_transport) now later none
      kept_models (gpt ∷ []) refl fetches stays_fresh

abbrev turn : Plain
turn = p_object (member "model" (p_string "gpt-5") (member "input" (p_string "hi") end))

abbrev turn_fields : List (String × Plain)
turn_fields = ("model", p_string "gpt-5") ∷ ("input", p_string "hi") ∷ []

abbrev kept_fields : List (String × Plain)
kept_fields = normalize_responses_lite_fields "codex-api-1" true turn_fields

abbrev warmup_fields : List (String × Plain)
warmup_fields = prewarm_of kept_fields (prewarm_input route_marker_tools "Be brief." none)

warms_up : responses_lite_prewarm turn gpt "codex-api-1" ≡ ok (warmup_fields, kept_fields)
unfolding responses_lite_prewarm has_inline_tools as_object as_array as_str get_field
warms_up = refl

turn_is_object : as_object turn ≡ some turn_fields
unfolding as_object
turn_is_object = refl

responses_lite_prewarm_shares_example :
    (lookup warmup_fields "model" ≡ lookup kept_fields "model")
    × (lookup kept_fields "input" ≡ some (p_string "hi"))
    × (lookup kept_fields "tools" ≡ none)
    × (lookup kept_fields "instructions" ≡ none)
    × (lookup kept_fields "store" ≡ some (p_bool false))
    × (lookup kept_fields "stream" ≡ some (p_bool true))
    × (lookup warmup_fields "generate" ≡ some (p_bool false))
responses_lite_prewarm_shares_example =
    responses_lite_prewarm_shares turn gpt "codex-api-1" "model" turn_fields warmup_fields
      kept_fields turn_is_object warms_up refl refl refl
