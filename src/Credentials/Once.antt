-- ===== src/Credentials/Once.antt =====
-- A refresh token is exchanged once (src/credentials.rs).
use codex_api.Common.{
  ℕ, suc, ◌+◌, ◌^◌, ◌≤◌, ◌<◌, ◌≡◌, ◌≢◌, refl, ◌⊎◌, inl, inr, Bool, true, Option, List, [], ◌∷◌,
  String, Result, nat_eq, if◌then◌else◌, Bool-cases, Result-cases, arith,
}
use codex_api.Store.Times.{Times}
use codex_api.Store.Types.{Credential, StoreError}
use codex_api.Credentials.Refresh.{
  RefreshReason, CredentialError, RefreshResponse, CredentialState, on_record, refresh_generation,
  token_to_exchange, clear_flight, complete_refresh, refreshed_credential,
}
use codex_api.Credentials.System.{
  count, drop_one, World, ask, exchange, reject, give_up, accept, Reach, loaded, asked, sent,
  rejected_by_server, accepted, gave_up,
}

count-drop_one :
    (g j : ℕ) (xs : List ℕ)
    → 1 ≤ count g xs
    → count j (drop_one g xs) + (if nat_eq g j then 1 else 0) ≡ count j xs
unfolding count drop_one
count-drop_one g j [] h = ground arith
count-drop_one g j (x ∷ xs) h = ground (arith, count-drop_one g j xs)

module _ ⦃T : Times⦄ where
  open T use {OffsetDateTime}

  abbrev spent : ℕ → World → ℕ
  spent g w = count g w.exchanged + count g w.starting

  record IsOnce (g : ℕ) (w : World) : Type 0 where
    bound : spent g w ≤ suc (count g w.cleared)
    current :
        (spent g w ≤ count g w.cleared) ⊎ ((w.state.generation ≢ g) ⊎ (on_record g w.flight ≡ true))
    future : (spent g w ≡ 0) ⊎ (g ≤ w.state.generation)

  ask-IsOnce :
      (expected : ℕ) (reason : RefreshReason) (now : OffsetDateTime) (g : ℕ) (w : World)
      → IsOnce g w
      → IsOnce g (ask expected reason now w)
  unfolding ask refresh_generation count
  ask-IsOnce expected reason now g w v = ground (arith, v.bound, v.current, v.future)

  exchange-IsOnce :
      (h g : ℕ) (w : World) → 1 ≤ count h w.starting → IsOnce g w → IsOnce g (exchange h w)
  unfolding exchange token_to_exchange count
  exchange-IsOnce h g w p v =
      ground (arith, v.bound, v.current, v.future, count-drop_one h g w.starting p)

  give_up-IsOnce : (h g : ℕ) (w : World) → IsOnce g w → IsOnce g (give_up h w)
  unfolding give_up clear_flight count
  give_up-IsOnce h g w v = ground (arith, v.bound, v.current, v.future)

  reject-IsOnce : (h g : ℕ) (e : CredentialError) (w : World) → IsOnce g w → IsOnce g (reject h e w)
  unfolding reject
  reject-IsOnce h g e w v = record { bound = v.bound; current = v.current; future = v.future }

  module _ (claimed_account : String → Option String)
      (claimed_expiry : String → Option OffsetDateTime) (is_header_value : String → Bool) where
    -- The generation stays or is the next.
    complete_refresh-generation :
        (save : Credential → Result StoreError (Unit {0})) (h : ℕ) (refreshed : RefreshResponse)
        (now : OffsetDateTime) (s : CredentialState)
        → s.generation + 1 < 2 ^ 64
        → ((complete_refresh claimed_account claimed_expiry is_header_value save h refreshed now
              s).1.generation
            ≡ s.generation)
          ⊎ ((complete_refresh claimed_account claimed_expiry is_header_value save h refreshed now
                s).1.generation
              ≡ suc s.generation)
    unfolding complete_refresh
    complete_refresh-generation save h refreshed now s small =
        elim (Bool-cases (nat_eq s.generation h)) [
          | inr p ↦ inl (rw (p, complete_refresh) refl)
          | inl p ↦
              elim (Result-cases (
                refreshed_credential claimed_account claimed_expiry is_header_value refreshed now
                  s.credential)) [
                    | inl (e, q) ↦ inl (rw (p, q, complete_refresh) refl)
                    | inr (c, q) ↦ elim (Result-cases (save c)) [
                      | inl (e, r) ↦ inl (rw (p, q, r, complete_refresh) refl)
                      | inr (u, r) ↦ inr (rw (p, q, r, complete_refresh) (ground arith))
                    ]
                  ]
        ]

    accept-IsOnce :
        (save : Credential → Result StoreError (Unit {0})) (h g : ℕ) (refreshed : RefreshResponse)
        (now : OffsetDateTime) (w : World)
        → w.state.generation + 1 < 2 ^ 64
        → IsOnce g w
        → IsOnce g (accept claimed_account claimed_expiry is_header_value save h refreshed now w)
    unfolding accept
    accept-IsOnce save h g refreshed now w small v = ground (
      arith,
      v.bound,
      v.current,
      v.future,
      complete_refresh-generation save h refreshed now w.state small,
    )

    Reach-IsOnce :
        (g : ℕ) {w : World} → Reach claimed_account claimed_expiry is_header_value w → IsOnce g w
    unfolding count
    Reach-IsOnce g (loaded credential) = record {
      bound = ground arith;
      current = inl (ground arith);
      future = inl refl;
    }
    Reach-IsOnce g (asked expected reason now w r) =
        ask-IsOnce expected reason now g w (Reach-IsOnce g r)
    Reach-IsOnce g (sent h w r p) = exchange-IsOnce h g w p (Reach-IsOnce g r)
    Reach-IsOnce g (rejected_by_server h e w r p) = reject-IsOnce h g e w (Reach-IsOnce g r)
    Reach-IsOnce g (accepted save h refreshed now w r p small) =
        accept-IsOnce save h g refreshed now w small (Reach-IsOnce g r)
    Reach-IsOnce g (gave_up h w r p) = give_up-IsOnce h g w (Reach-IsOnce g r)

    -- In every interleaving of requests and refresh tasks, the rotating refresh token of a generation
    -- is sent to the token endpoint at most once more than a server error took its flight off the
    -- record: without such errors, at most once.
    pub exchanged_once :
        (g : ℕ) {w : World}
        → Reach claimed_account claimed_expiry is_header_value w
        → count g w.exchanged ≤ suc (count g w.cleared)
    exchanged_once g {w} r = let v = Reach-IsOnce g r in omega (arith, v.bound)
