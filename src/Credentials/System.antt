-- ===== src/Credentials/System.antt =====
-- src/credentials.rs: requests and refresh tasks in any interleaving.
use codex_api.Common.{
  ℕ, suc, ◌+◌, ◌^◌, ◌≤◌, ◌<◌, Bool, Option, none, List, [], ◌∷◌, String, Result, ok, err, nat_eq,
  if◌then◌else◌,
}
use codex_api.Store.Times.{Times}
use codex_api.Store.Types.{Credential, StoreError}
use codex_api.Credentials.Refresh.{
  RefreshReason, CredentialError, CredentialSnapshot, RefreshResponse, Flight, CredentialState,
  Decision, respond, join, spawn, on_record, refresh_generation, token_to_exchange, clear_flight,
  retryable, complete_refresh,
}

unfoldable pub count : ℕ → List ℕ → ℕ
count g [] = 0
count g (x ∷ xs) = if nat_eq x g then suc (count g xs) else count g xs

unfoldable pub drop_one : ℕ → List ℕ → List ℕ
drop_one g [] = []
drop_one g (x ∷ xs) = let rest = drop_one g xs in if nat_eq x g then xs else x ∷ rest

module _ ⦃T : Times⦄ where
  open T use {OffsetDateTime}

  -- The manager with its tasks, each under the generation that it refreshes: those that have not
  -- sent their token, those that wait for the answer, and those that the endpoint failed with a
  -- server error. `exchanged` and `cleared` record what happened.
  pub record World : Type 0 where
    pub state : CredentialState
    pub flight : Flight
    pub starting : List ℕ
    pub awaiting : List ℕ
    pub failed : List ℕ
    pub exchanged : List ℕ
    pub cleared : List ℕ

  abbrev pub started_tasks : Decision → ℕ → List ℕ → List ℕ
  started_tasks spawn expected tasks = expected ∷ tasks
  started_tasks join expected tasks = tasks
  started_tasks (respond s) expected tasks = tasks

  unfoldable pub ask : ℕ → RefreshReason → OffsetDateTime → World → World
  ask expected reason now w =
      let d = refresh_generation expected reason now w.state w.flight in
      record w { flight = d.1; starting = started_tasks d.0 expected w.starting }

  unfoldable pub exchange : ℕ → World → World
  exchange g w = elim (token_to_exchange g w.state) [
    | err _ ↦ record w { starting = drop_one g w.starting }
    | ok _ ↦ record w {
      starting = drop_one g w.starting;
      awaiting = g ∷ w.awaiting;
      exchanged = g ∷ w.exchanged;
    }
  ]

  -- The endpoint refused or could not be reached.
  unfoldable pub reject : ℕ → CredentialError → World → World
  reject g e w =
      let failed_tasks =
        if retryable {A = CredentialSnapshot} (err e) then g ∷ w.failed else w.failed in
      record w { awaiting = drop_one g w.awaiting; failed = failed_tasks }

  unfoldable pub give_up : ℕ → World → World
  give_up g w = record w {
    flight = clear_flight g w.flight;
    failed = drop_one g w.failed;
    cleared = if on_record g w.flight then g ∷ w.cleared else w.cleared;
  }

  module _ (claimed_account : String → Option String)
      (claimed_expiry : String → Option OffsetDateTime) (is_header_value : String → Bool) where
    unfoldable pub accept :
        (Credential → Result StoreError (Unit {0}))
        → ℕ
        → RefreshResponse
        → OffsetDateTime
        → World
        → World
    accept save g refreshed now w = record w {
      state =
          (complete_refresh claimed_account claimed_expiry is_header_value save g refreshed now
            w.state).1;
      awaiting = drop_one g w.awaiting;
    }

    -- The runs from a loaded credential; of fewer than 2^64 refreshes, so that no generation comes
    -- twice.
    pub data Reach : World → Type 0 where
      loaded :
          (credential : Credential)
          → Reach (record {
            state = record { credential = credential; generation = 0 };
            flight = none;
            starting = [];
            awaiting = [];
            failed = [];
            exchanged = [];
            cleared = [];
          })
      asked :
          (expected : ℕ) (reason : RefreshReason) (now : OffsetDateTime) (w : World)
          → Reach w
          → Reach (ask expected reason now w)
      sent : (g : ℕ) (w : World) → Reach w → 1 ≤ count g w.starting → Reach (exchange g w)
      rejected_by_server :
          (g : ℕ) (e : CredentialError) (w : World)
          → Reach w
          → 1 ≤ count g w.awaiting
          → Reach (reject g e w)
      accepted :
          (save : Credential → Result StoreError (Unit {0})) (g : ℕ) (refreshed : RefreshResponse)
          (now : OffsetDateTime) (w : World)
          → Reach w
          → 1 ≤ count g w.awaiting
          → w.state.generation + 1 < 2 ^ 64
          → Reach (accept save g refreshed now w)
      gave_up : (g : ℕ) (w : World) → Reach w → 1 ≤ count g w.failed → Reach (give_up g w)
