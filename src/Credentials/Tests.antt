-- ===== src/Credentials/Tests.antt =====
-- Runs of the credential manager (src/credentials.rs).
use codex_api.Common.{
  suc, ◌+◌, ◌%◌, ◌^◌, ◌≤◌, ◌≡◌, ◌⊎◌, refl, ℤ, pos, Bool, true, false, Option, none, some, [], ◌∷◌,
  String, Result, ok, is_blank,
}
use codex_api.Store.Plain.{nanosecond_times}
use codex_api.Store.Types.{Credential, StoreError}
use codex_api.Credentials.Refresh.{
  unauthorized, CredentialError, CredentialSnapshot, RefreshResponse, CredentialState,
  refresh_generation, complete_refresh, refreshed_credential, optional_nonempty,
  account_id_from_id_token, upstream_headers_are_valid, snapshot_from_state,
}
use codex_api.Credentials.System.{count, World, ask, Reach, loaded, asked}
use codex_api.Credentials.Once.{exchanged_once}
use codex_api.Credentials.Update.{complete_refresh_saves}

abbrev credential : Credential
credential = record {
  account_id = "acct";
  access_token = "access";
  refresh_token = "refresh";
  access_expires_at = none;
  last_refresh = pos 0;
}

abbrev no_claim : String → Option String
no_claim token = none

abbrev no_expiry : String → Option ℤ
no_expiry token = none

abbrev any_value : String → Bool
any_value value = true

abbrev start : World
start = record {
  state = record { credential = credential; generation = 0 };
  flight = none;
  starting = [];
  awaiting = [];
  failed = [];
  exchanged = [];
  cleared = [];
}

-- Two requests meet a 401 of the same generation: one flight, one exchange.
abbrev asked_twice : World
asked_twice = ask 0 unauthorized (pos 2) (ask 0 unauthorized (pos 1) start)

one_task : asked_twice.starting ≡ 0 ∷ []
unfolding ask refresh_generation
one_task = refl

asked_twice-Reach : Reach no_claim no_expiry any_value asked_twice
asked_twice-Reach =
    asked 0 unauthorized (pos 2) (ask 0 unauthorized (pos 1) start)
      (asked 0 unauthorized (pos 1) start (loaded credential))

exchanged_once_example : count 0 asked_twice.exchanged ≤ suc (count 0 asked_twice.cleared)
exchanged_once_example = exchanged_once no_claim no_expiry any_value 0 asked_twice-Reach

abbrev answer : RefreshResponse
answer = record { id_token = none; access_token = some "access2"; refresh_token = some "refresh2" }

abbrev next_state : CredentialState
next_state = record {
  credential = record {
    account_id = "acct";
    access_token = "access2";
    refresh_token = "refresh2";
    access_expires_at = none;
    last_refresh = pos 7;
  };
  generation = 1;
}

completes :
    complete_refresh no_claim no_expiry any_value (λ c. ok tt) 0 answer (pos 7) start.state
    ≡ (ok (snapshot_from_state next_state), next_state)
unfolding complete_refresh refreshed_credential optional_nonempty account_id_from_id_token
    upstream_headers_are_valid
completes = refl

complete_refresh_saves_example :
    (next_state ≡ start.state)
    ⊎ ((◌≡◌ {A = Result StoreError (Unit {0})} (ok tt) (ok tt))
        × (1 ≡ (0 + 1) % 2 ^ 64)
        × (◌≡◌ {A = Result CredentialError CredentialSnapshot}
            (ok (snapshot_from_state next_state))
            (ok (snapshot_from_state next_state)))
        × (is_blank "access2" ≡ false)
        × (is_blank "refresh2" ≡ false)
        × (upstream_headers_are_valid no_claim no_expiry any_value "access2" "acct" ≡ true))
complete_refresh_saves_example =
    complete_refresh_saves no_claim no_expiry any_value (λ c. ok tt) 0 answer (pos 7) start.state
      next_state (ok (snapshot_from_state next_state)) refl refl completes
