-- ===== src/Credentials/Update.antt =====
-- What a refresh changes (src/credentials.rs).
use codex_api.Common.{
  ℕ, ◌+◌, ◌%◌, ◌^◌, ◌≡◌, ◌⊎◌, inl, inr, Bool, true, false, Option, String, is_blank, Result, ok,
  nat_eq, nat_eq_iff, Bool-cases, Result-cases, arith,
}
use codex_api.Store.Times.{Times}
use codex_api.Store.Types.{Credential, StoreError}
use codex_api.Credentials.Refresh.{
  CredentialError, CredentialSnapshot, RefreshResponse, CredentialState, snapshot_from_state,
  complete_refresh, refreshed_credential, optional_nonempty, upstream_headers_are_valid,
}

module _ ⦃T : Times⦄ where
  open T use {OffsetDateTime}

  module _ (claimed_account : String → Option String)
      (claimed_expiry : String → Option OffsetDateTime) (is_header_value : String → Bool) where
    refreshed_credential_ok :
        (refreshed : RefreshResponse) (now : OffsetDateTime) (current updated : Credential)
        → is_blank current.access_token ≡ false
        → is_blank current.refresh_token ≡ false
        → refreshed_credential claimed_account claimed_expiry is_header_value refreshed now current
          ≡ ok updated
        → (is_blank updated.access_token ≡ false)
          × (is_blank updated.refresh_token ≡ false)
          × (upstream_headers_are_valid claimed_account claimed_expiry is_header_value
                updated.access_token updated.account_id
              ≡ true)
    unfolding refreshed_credential optional_nonempty
    refreshed_credential_ok refreshed now current updated a b h = ground (arith, a, b)

    -- A refresh leaves the state as it is, or the store has saved the credential that it installs
    -- under the next generation and the caller gets a snapshot of it; no token of that credential is
    -- blank if none was before, and its token and account can be sent as headers.
    pub complete_refresh_saves :
        (save : Credential → Result StoreError (Unit {0})) (expected : ℕ)
        (refreshed : RefreshResponse) (now : OffsetDateTime) (s after : CredentialState)
        (result : Result CredentialError CredentialSnapshot)
        → is_blank s.credential.access_token ≡ false
        → is_blank s.credential.refresh_token ≡ false
        → complete_refresh claimed_account claimed_expiry is_header_value save expected refreshed
            now s
          ≡ (result, after)
        → (after ≡ s)
          ⊎ ((save after.credential ≡ ok tt)
              × (after.generation ≡ (expected + 1) % 2 ^ 64)
              × (result ≡ ok (snapshot_from_state after))
              × (is_blank after.credential.access_token ≡ false)
              × (is_blank after.credential.refresh_token ≡ false)
              × (upstream_headers_are_valid claimed_account claimed_expiry is_header_value
                    after.credential.access_token after.credential.account_id
                  ≡ true))
    unfolding complete_refresh
    complete_refresh_saves save expected refreshed now s after result a b h =
        elim (Bool-cases (nat_eq s.generation expected)) [
          | inr p ↦ inl (cc (rw (p, complete_refresh) at h))
          | inl p ↦
              elim (Result-cases (
                refreshed_credential claimed_account claimed_expiry is_header_value refreshed now
                  s.credential)) [
                    | inl (e, q) ↦ inl (cc (rw (p, q, complete_refresh) at h))
                    | inr (c, q) ↦ elim (Result-cases (save c)) [
                      | inl (e, r) ↦ inl (cc (rw (p, q, r, complete_refresh) at h))
                      | inr (u, r) ↦
                          let k = rw (p, q, r, complete_refresh) at h in
                          let v = refreshed_credential_ok refreshed now s.credential c a b q in
                          inr ground (arith, k, v, r, nat_eq_iff s.generation expected)
                    ]
                  ]
        ]
