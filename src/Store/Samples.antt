-- ===== src/Store/Samples.antt =====
-- Concrete requests and ledgers, on which the store (src/store.rs) runs in the tests.
use codex_api.Common.{◌≡◌, refl, subst, ℤ, pos, true, none, some, [], ◌∷◌, ok, arith}
use codex_api.Store.Plain.{scaled, scaled_decimals, nanosecond_times}
use codex_api.Store.Types.{
  QuotaLimits, ModelRates, ModelCandidates, EffectiveModel, BillableUsage, RequestContext,
  responses, http_sse, completed, admitted, protocol_str, transport_str, status_str,
}
use codex_api.Store.Ledger.{
  Row, Ledger, insert_row, checks, select_started, update_started, update_checks, sum_costs,
}
use codex_api.Store.Cost.{
  weighted_cost, calculate_cost_nano_usd, token_count, div_million, to_i64_or_range, timestamp_ns,
  timestamp_ms,
}
use codex_api.Store.Quota.{
  add_ℕ, checked_add_i64, spend_meets_limit, monday_start, week_window, query_spend,
  current_week_spend_nano_usd,
}
use codex_api.Store.Requests.{insert, decide, request_row, assess, begin_request}
use codex_api.Store.Finalize.{elapsed_ms, finished_row, update, charge_of, settle, finalize_request}
use codex_api.Store.Invariant.{IsValid, begin_request-IsValid}

abbrev pub now : ℤ
now = pos 1_767_225_600_000_000_000

abbrev pub later : ℤ
later = pos 1_767_225_601_500_000_000

abbrev pub context : RequestContext
context = record { api_key_id = "key_1"; api_protocol = responses; transport = http_sse }

abbrev pub rates : ModelRates
rates = record {
  input_usd_per_million = scaled 125 2;
  cached_input_usd_per_million = scaled 13 2;
  output_usd_per_million = scaled 1000 2;
}

abbrev pub model : EffectiveModel
model = record { model = "gpt-5"; reasoning_effort = none; rates = rates }

abbrev pub candidates : ModelCandidates
candidates = record { primary = model; fallback = none }

abbrev pub quota : QuotaLimits
quota = record { weekly_limit_usd = some (scaled 5 0); hard_limit_usd = none }

abbrev pub empty : Ledger
empty = record { rows = []; next_id = 1 }

pub empty-IsValid : IsValid empty
empty-IsValid = record { keys = ground arith; rows = tt }

abbrev pub started : Ledger
started = record {
  rows =
      record {
        id = 1;
        requested_at_ms = pos 1_767_225_600_000;
        finished_at_ms = none;
        api_key_id = "key_1";
        model = "gpt-5";
        reasoning_effort = none;
        api_protocol = "responses";
        transport = "http_sse";
        input_tokens = none;
        cached_input_tokens = none;
        output_tokens = none;
        cost_nano_usd = none;
        duration_ms = none;
        status = "started";
        http_status = none;
      }
      ∷ [];
  next_id = 2;
}

abbrev pub usage : BillableUsage
usage = record { input_tokens = 1000; cached_input_tokens = 200; output_tokens = 50; rates = rates }

abbrev pub settled_row : Row
settled_row = record {
  id = 1;
  requested_at_ms = pos 1_767_225_600_000;
  finished_at_ms = some (pos 1_767_225_601_500);
  api_key_id = "key_1";
  model = "gpt-5";
  reasoning_effort = none;
  api_protocol = "responses";
  transport = "http_sse";
  input_tokens = some 1000;
  cached_input_tokens = some 200;
  output_tokens = some 50;
  cost_nano_usd = some 1_526_000;
  duration_ms = some 1500;
  status = "completed";
  http_status = some 200;
}

abbrev pub settled : Ledger
settled = record { rows = settled_row ∷ []; next_id = 2 }

pub request_begins :
    begin_request (true, true) (λ l. l) context quota candidates now empty
    ≡ (ok (admitted 1 model), started)
unfolding begin_request assess timestamp_ms current_week_spend_nano_usd week_window monday_start
    checked_add_i64 add_ℕ query_spend sum_costs decide spend_meets_limit insert insert_row checks
    request_row protocol_str transport_str timestamp_ns div_million to_i64_or_range
request_begins = refl

pub request_settles :
    finalize_request (true, true) (λ l. l) 1 completed (some 200) (some usage) later started
    ≡ (ok tt, settled)
unfolding finalize_request settle select_started timestamp_ms div_million to_i64_or_range charge_of
    token_count calculate_cost_nano_usd weighted_cost update update_checks update_started checks
    finished_row status_str elapsed_ms
request_settles = refl

pub started-IsValid : IsValid started
started-IsValid =
    subst (λ o. IsValid o.1) request_begins
      (begin_request-IsValid (λ l. l) empty empty-IsValid true true context quota candidates now)

pub now_ms : timestamp_ms now ≡ ok (pos 1_767_225_600_000)
unfolding timestamp_ms div_million to_i64_or_range
now_ms = refl

pub later_ms : timestamp_ms later ≡ ok (pos 1_767_225_601_500)
unfolding timestamp_ms div_million to_i64_or_range
later_ms = refl
