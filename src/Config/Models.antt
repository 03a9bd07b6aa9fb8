-- ===== src/Config/Models.antt =====
-- src/config.rs: the model and the reasoning effort that a request gets.
use codex_api.Common.{
  Option, none, some, String, Result, ok, err, ◌>>=◌, ltb, and_then, map_option, if◌then◌else◌,
}
use codex_api.Json.{Json, object}
use codex_api.Json.Access.{as_object, json_string}
use codex_api.Store.Decimals.{Decimals}
use codex_api.Store.Types.{ModelCandidates, EffectiveModel, ModelRates}
use codex_api.Config.Types.{Urls, Config, ModelPrice}
use codex_api.Config.Validate.{reasoning_effort_rank, find_price}

-- The two `expect`s of the source.
pub data ConfigPanic : Type 0 where
  unvalidated_limit fallback_without_rates : ConfigPanic

-- The effort, no higher than the model's maximum.
unfoldable pub capped : Option String → String → Result ConfigPanic String
capped none requested = ok requested
capped (some maximum) requested = elim (reasoning_effort_rank requested) [
  | none ↦ ok requested
  | some rank ↦ elim (reasoning_effort_rank maximum) [
    | none ↦ err unvalidated_limit
    | some limit ↦ ok (if ltb limit rank then maximum else requested)
  ]
]

unfoldable pub capped_effort : Option String → Option String → Result ConfigPanic (Option String)
capped_effort maximum none = ok none
capped_effort maximum (some requested) = do effort ← capped maximum requested; ok (some effort)

module _ ⦃D : Decimals⦄ where
  unfoldable pub rates_of : ModelPrice → ModelRates
  rates_of price = record {
    input_usd_per_million = price.input_usd_per_million;
    cached_input_usd_per_million = price.cached_input_usd_per_million;
    output_usd_per_million = price.output_usd_per_million;
  }

module _ ⦃D : Decimals⦄ ⦃U : Urls⦄ where
  unfoldable pub effective_model :
      Config → String → Option String → Result ConfigPanic (Option EffectiveModel)
  effective_model config model requested = elim (find_price model config.model_prices) [
    | none ↦ ok none
    | some price ↦ do
      effort ← capped_effort price.max_reasoning_effort requested
      ok (some (record { model = model; reasoning_effort = effort; rates = rates_of price }))
  ]

  -- The fallback must have prices.
  unfoldable pub fallback_candidate :
      Config → Option String → Option String → Result ConfigPanic (Option EffectiveModel)
  fallback_candidate config none requested = ok none
  fallback_candidate config (some fallback) requested = do
    found ← effective_model config fallback requested
    elim found [ none ↦ err fallback_without_rates | some candidate ↦ ok (some candidate) ]

  unfoldable pub model_candidates :
      Config → String → Option String → Result ConfigPanic (Option ModelCandidates)
  model_candidates config model requested = do
    found ← effective_model config model requested
    elim found [
      | none ↦ ok none
      | some primary ↦ do
        fallback ← fallback_candidate config config.fallback_model requested
        ok (some (record { primary = primary; fallback = fallback }))
    ]

module _ ⦃J : Json⦄ where
  open J use {Value, Fields, make, get, insert}

  -- `pointer_mut("/reasoning/effort")`, and the assignment through it.
  unfoldable pub set_effort : Fields → String → Option Value
  set_effort body effort = and_then (get body "reasoning") (λ reasoning.
      and_then (as_object reasoning) (λ settings.
        map_option
          (λ _. make (
            object (
              insert body "reasoning"
                (make (object (insert settings "effort" (json_string effort)))))))
          (get settings "effort")))

module _ ⦃D : Decimals⦄ ⦃J : Json⦄ where
  open J use {Value, make, insert}

  -- `none` is a panic.
  unfoldable pub apply_effective_request : Value → EffectiveModel → Option Value
  apply_effective_request body effective = and_then (as_object body) (λ fields.
      let named = insert fields "model" (json_string effective.model) in
      elim effective.reasoning_effort [
        | none ↦ some (make (object named))
        | some effort ↦ set_effort named effort
      ])
