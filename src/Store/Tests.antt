-- ===== src/Store/Tests.antt =====
-- Runs of the store on concrete ledgers (src/store.rs).
use codex_api.Common.{
  ℕ, ◌≡◌, refl, ap, ◌≤◌, ◌<◌, ◌+◌, ◌*◌, ◌/◌, ◌%◌, ◌^◌, ltb, leb, i64_bound, if◌then◌else◌, ℤ, pos,
  true, false, none, some, ok, err, eq_iff, arith, String,
}
use codex_api.Store.Plain.{scaled, scaled_decimals, nanosecond_times}
use codex_api.Store.Types.{
  Credential, completed, canceled, admitted, ModelAccess, request_not_started, cost_out_of_range,
}
use codex_api.Store.Ledger.{Row, sum_costs}
use codex_api.Store.Cost.{
  optional_timestamp_ns, timestamp_ns, to_i64_or_range, calculate_cost_nano_usd, div_million,
  to_i64_or_range, timestamp_ms,
}
use codex_api.Store.Quota.{
  add_ℕ, checked_add_i64, spend_meets_limit, monday_start, week_window, model_access, week_ms,
}
use codex_api.Store.Requests.{record_rejection}
use codex_api.Store.Finalize.{Charge, charge_of, finalize_request}
use codex_api.Store.Invariant.{IsValid}
use codex_api.Store.Finality.{
  Reach-closed, finalize_request_once, get_row, rejects, finalizes, here, next,
}
use codex_api.Store.Reachable.{Reach-IsValid}
use codex_api.Store.Accounting.{started_row, charged_to, finalize_request-charges}
use codex_api.Store.Window.{day_ms, week_window-contains}
use codex_api.Store.Exact.{exact_cost, half_up, calculate_cost-exact, spend_meets_limit-exact}
use codex_api.Store.Access.{Agrees, begin_request-Agrees}
use codex_api.Store.Saved.{
  CredentialRow, row_of, write_row, load_or_import_credentials, save_credentials, load-save,
}
use codex_api.Store.Samples.{
  now, later, context, model, candidates, quota, empty, started, usage, settled_row, settled,
  request_begins, request_settles, started-IsValid,
}

Reach-IsValid_example :
    IsValid
      (finalize_request
        (true, true)
        (λ _. started)
        1
        completed
        (some 200)
        (some usage)
        later
        started).1
Reach-IsValid_example =
    Reach-IsValid started-IsValid
      (next here (finalizes (true, true) started 1 completed (some 200) (some usage) later))

finalize_request_once_example :
    finalize_request (true, true) (λ m. m) 1 canceled none none later settled
    ≡ (err (request_not_started 1), settled)
finalize_request_once_example =
    finalize_request_once (true, true) true (λ l. l) 1 completed canceled (some 200) none
      (some usage) none later later started settled request_settles

finalize_request-charges_example :
    (r : Row) × (charge : Charge) × (started_row 1 started.rows ≡ some r)
    × (charge_of (some usage) ≡ ok charge)
    × (sum_costs "key_1" (pos 0) (pos 2_000_000_000_000) settled.rows
        ≡ sum_costs "key_1" (pos 0) (pos 2_000_000_000_000) started.rows
          + charged_to "key_1" (pos 0) (pos 2_000_000_000_000) r charge.cost_nano_usd)
finalize_request-charges_example =
    finalize_request-charges (true, true) (λ l. l) 1 completed (some 200) (some usage) later started
      settled "key_1" (pos 0) (pos 2_000_000_000_000) started-IsValid request_settles

week_window-contains_example :
    (start : ℕ) × (week_window now ≡ ok (pos start, pos (start + week_ms)))
    × (start % day_ms ≡ 0)
    × ((start / day_ms + 3) % 7 ≡ 0)
    × (start ≤ 1_767_225_600_000_000_000 / 1_000_000)
    × (1_767_225_600_000_000_000 / 1_000_000 < start + week_ms)
week_window-contains_example =
    week_window-contains now 1_767_225_600_000_000_000 refl (ground arith) (ground arith)

this_week : week_window now ≡ ok (pos 1_766_966_400_000, pos 1_767_571_200_000)
unfolding week_window monday_start timestamp_ms div_million to_i64_or_range checked_add_i64 add_ℕ
this_week = refl

calculate_cost-exact_example : calculate_cost_nano_usd usage ≡ (
    if ltb (half_up (exact_cost 800 200 50 125 13 1000) 2) i64_bound
    then ok (pos (half_up (exact_cost 800 200 50 125 13 1000) 2))
    else err cost_out_of_range)
calculate_cost-exact_example =
    calculate_cost-exact usage 125 13 1000 2 (ground arith) (ground arith) (ground arith) refl refl
      refl (ground arith) (ground arith)

spend_meets_limit-exact_example :
    spend_meets_limit (scaled 4_999_999_999 0) (some (scaled 5 0))
    ≡ ok (leb (5 * 1_000_000_000) (4_999_999_999 * 10 ^ 0))
spend_meets_limit-exact_example =
    spend_meets_limit-exact 4_999_999_999 (scaled 5 0) 5 0 (ground arith) refl (ground arith)
      (ground arith)

begin_request-Agrees_example :
    (access : ModelAccess) × (model_access true "key_1" quota false now empty ≡ ok access)
    × Agrees candidates (admitted 1 model) access
begin_request-Agrees_example =
    begin_request-Agrees true (λ l. l) context quota candidates now empty (scaled 5 0)
      (admitted 1 model) refl (ap (λ o. o.0) request_begins)

Reach-closed_example :
    get_row 1 (record_rejection true context "gpt-5" none (some 400) later settled).1.rows
    ≡ some settled_row
Reach-closed_example =
    Reach-closed 1 settled_row (λ e. ground (arith, eq_iff "completed" "started"))
      (next here (rejects true context "gpt-5" none (some 400) later)) refl

abbrev credential : String → ℤ → Credential
credential token at = record {
  account_id = "acct";
  access_token = token;
  refresh_token = "refresh";
  access_expires_at = some later;
  last_refresh = at;
}

abbrev saved_row : String → ℤ → CredentialRow
saved_row token at = record {
  account_id = "acct";
  access_token = token;
  refresh_token = "refresh";
  access_expires_at_ns = some later;
  last_refresh_ns = at;
}

saves :
    save_credentials true (credential "new" now) (some (saved_row "old" (pos 0)))
    ≡ (ok tt, some (saved_row "new" now))
unfolding save_credentials write_row row_of timestamp_ns optional_timestamp_ns to_i64_or_range
saves = refl

load-save_example :
    load_or_import_credentials (true, true) (credential "seed" (pos 5)) (some (saved_row "new" now))
    ≡ (ok (credential "new" now), some (saved_row "new" now))
load-save_example =
    load-save true true (credential "new" now) (credential "seed" (pos 5))
      (some (saved_row "old" (pos 0))) (some (saved_row "new" now)) saves refl
