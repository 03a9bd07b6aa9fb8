-- ===== src/Config/Tests.antt =====
-- Runs of the configuration (src/config.rs).
use codex_api.Common.{
  ℕ, ◌≡◌, ◌≢◌, ◌≤◌, ◌⊎◌, refl, false, some, [], ◌∷◌, String, ok, err, leb, and_then,
}
use codex_api.Json.Plain.{plain_json}
use codex_api.Json.Trees.{Plain, p_string, p_object, end, member}
use codex_api.Json.Access.{as_object, as_str, json_string, index, pointer}
use codex_api.Store.Plain.{scaled_decimals}
use codex_api.Store.Types.{EffectiveModel}
use codex_api.Config.Plain.{plain_urls}
use codex_api.Config.Keys.{file_mode, strip_line_end}
use codex_api.Config.Validate.{reasoning_effort_rank, position}
use codex_api.Config.Models.{
  capped, model_candidates, unvalidated_limit, rates_of, apply_effective_request, set_effort,
}
use codex_api.Config.Validated.{model_candidates_total}
use codex_api.Config.Capped.{capped_le, apply_effective_request-reads}
use codex_api.Config.Samples.{sample, price, sample_validates}

mode_0640 : file_mode (48 ∷ 54 ∷ 52 ∷ 48 ∷ []) ≡ ok 416
unfolding file_mode
mode_0640 = refl

one_line_end : strip_line_end "secret\r\n" ≡ "secret"
unfolding strip_line_end
one_line_end = refl

model_candidates_total_example :
    model_candidates sample "gpt-5" (some "ultra") ≢ err unvalidated_limit
model_candidates_total_example =
    model_candidates_total sample "gpt-5" (some "ultra") unvalidated_limit sample_validates

capped_high : capped (some "high") "ultra" ≡ ok "high"
unfolding capped reasoning_effort_rank position
capped_high = refl

high : reasoning_effort_rank "high" ≡ some 4
unfolding reasoning_effort_rank position
high = refl

capped_le_example :
    (4 ≤ 4)
    × ((◌≡◌ {A = String} "high" "ultra")
        ⊎ ((◌≡◌ {A = String} "high" "high")
            × (above : ℕ) × (reasoning_effort_rank "ultra" ≡ some above)
            × (leb above 4 ≡ false)))
capped_le_example = capped_le "high" "ultra" "high" 4 4 capped_high high high

abbrev effective : EffectiveModel
effective = record { model = "gpt-5"; reasoning_effort = some "high"; rates = rates_of price }

abbrev reasoning_body : String → String → Plain
reasoning_body model effort = p_object (
    member "model" (p_string model)
      (member "reasoning" (p_object (member "effort" (p_string effort) end)) end))

applies :
    apply_effective_request (reasoning_body "auto" "ultra") effective
    ≡ some (reasoning_body "gpt-5" "high")
unfolding apply_effective_request set_effort as_object json_string
applies = refl

apply_effective_request-reads_example :
    (as_str (index (reasoning_body "gpt-5" "high") "model") ≡ some "gpt-5")
    × (and_then (pointer (reasoning_body "gpt-5" "high") "reasoning" "effort") as_str ≡ some "high")
apply_effective_request-reads_example =
    apply_effective_request-reads (reasoning_body "auto" "ultra") (reasoning_body "gpt-5" "high")
      effective applies
