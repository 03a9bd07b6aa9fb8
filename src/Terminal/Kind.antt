-- ===== src/Terminal/Kind.antt =====
-- src/responses_terminal.rs: `TerminalKind` and its names on the wire.
use codex_api.Common.{
  ◌≡◌, ◌↔◌, Option, none, some, String, str_eq, eq_iff, if◌then◌else◌, arith, Bool, true, false,
}

pub data TerminalKind : Type 0 where
  completed incomplete failed error : TerminalKind

unfoldable pub event_name : TerminalKind → String
event_name completed = "response.completed"
event_name incomplete = "response.incomplete"
event_name failed = "response.failed"
event_name error = "error"

unfoldable pub from_name : String → Option TerminalKind
from_name value =
    if str_eq value "response.completed"
    then some completed
    else if str_eq value "response.incomplete"
    then some incomplete
    else if str_eq value "response.failed"
    then some failed
    else if str_eq value "error"
    then some error
    else none

unfoldable pub response_status : TerminalKind → Option String
response_status completed = some "completed"
response_status incomplete = some "incomplete"
response_status failed = some "failed"
response_status error = none

-- `==` on kinds.
abbrev pub same_kind : TerminalKind → TerminalKind → Bool
same_kind completed completed = true
same_kind incomplete incomplete = true
same_kind failed failed = true
same_kind error error = true
same_kind _ _ = false

-- A text names a kind exactly when it is that kind's event name.
pub from_name-event_name :
    (s : String) (k : TerminalKind) → (from_name s ≡ some k) ↔ (s ≡ event_name k)
unfolding from_name event_name
from_name-event_name s completed = (λ h. ground (arith, eq_iff s "response.completed"), λ h. rw h)
from_name-event_name s incomplete = (λ h. ground (arith, eq_iff s "response.incomplete"), λ h. rw h)
from_name-event_name s failed = (λ h. ground (arith, eq_iff s "response.failed"), λ h. rw h)
from_name-event_name s error = (λ h. ground (arith, eq_iff s "error"), λ h. rw h)
