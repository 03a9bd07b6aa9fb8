-- ===== src/Pending/Tests.antt =====
-- Runs of a request's handle (src/http_api/request.rs).
use codex_api.Common.{◌≡◌, refl, pos, none, some, Result, true, false}
use codex_api.Store.Plain.{scaled_decimals, nanosecond_times}
use codex_api.Store.Types.{canceled, completed}
use codex_api.Store.Ledger.{Ledger, select_started}
use codex_api.Store.Samples.{later_ms, now, later, started, usage, started-IsValid}
use codex_api.Pending.Handle.{OpenRequest, opened, finalized, finish_terminal, drop}
use codex_api.Pending.Closing.{calm, drop_closes, finish_terminal_closes}

abbrev request : OpenRequest
request = record { request_id = 1; drop_status = canceled; drop_http_status = some 200 }

drop_closes_example : select_started 1 (drop (calm later) (opened request) started).1.rows ≡ none
drop_closes_example =
    drop_closes request later (pos 1_767_225_601_500) started started-IsValid later_ms refl

finish_terminal_closes_example :
    (result : Result (Unit {0}) (Unit {0})) × (after : Ledger) × (finish_terminal
        (record { db = (true, false); others = λ m. m; now = now })
        (calm later)
        completed
        200
        502
        (some usage)
        (opened request)
        started
      ≡ some (result, finalized, after))
    × (select_started 1 after.rows ≡ none)
finish_terminal_closes_example =
    finish_terminal_closes request (true, false) now later (pos 1_767_225_601_500) completed 200 502
      (some usage) started started-IsValid later_ms refl
