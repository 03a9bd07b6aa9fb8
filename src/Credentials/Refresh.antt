-- ===== src/Credentials/Refresh.antt =====
-- src/credentials.rs: the decisions of the credential manager, each of which the source takes under
-- a lock.
use codex_api.Common.{
  ℕ, ◌+◌, ◌*◌, ◌%◌, ◌^◌, leb_ℤ, ltb_ℤ, Bool, true, false, not, ◌&&◌, Option, none, some, String,
  ◌⧺◌, is_blank, Result, ok, err, ◌>>=◌, ◌>>◌, ensure, nat_eq, leb, unwrap_or, and_then,
  filter_option, if◌then◌else◌,
}
use codex_api.Store.Times.{Times, day_ns}
use codex_api.Store.Types.{Credential, StoreError}
use codex_api.Store.Quota.{add_ℕ}

pub data RefreshReason : Type 0 where
  proactive unauthorized : RefreshReason

-- The errors of a refresh; the variants of reading the seed file are left out.
pub data CredentialError : Type 0 where
  store_error : StoreError → CredentialError
  oauth_request : CredentialError
  oauth_rejected : ℕ → CredentialError
  oauth_response : CredentialError
  invalid_oauth_response : CredentialError

pub record CredentialSnapshot : Type 0 where
  pub access_token : String
  pub account_id : String
  pub generation : ℕ

pub record RefreshResponse : Type 0 where
  pub id_token : Option String
  pub access_token : Option String
  pub refresh_token : Option String

-- `flight` is the generation of the flight that is on record, finished or not.
abbrev pub Flight : Type 0
Flight = Option ℕ

module _ ⦃T : Times⦄ where
  open T use {OffsetDateTime, unix_timestamp_nanos}

  pub record CredentialState : Type 0 where
    pub credential : Credential
    pub generation : ℕ

  unfoldable pub snapshot_from_state : CredentialState → CredentialSnapshot
  snapshot_from_state state = record {
    access_token = state.credential.access_token;
    account_id = state.credential.account_id;
    generation = state.generation;
  }

  -- Five minutes before the expiry; for an opaque token, eight days after the last refresh.
  unfoldable pub credential_needs_refresh : Credential → OffsetDateTime → Bool
  credential_needs_refresh credential now = elim credential.access_expires_at [
    | some expires_at ↦
        leb_ℤ (unix_timestamp_nanos expires_at)
          (add_ℕ (unix_timestamp_nanos now) (300 * 1_000_000_000))
    | none ↦
        ltb_ℤ (add_ℕ (unix_timestamp_nanos credential.last_refresh) (8 * day_ns))
          (unix_timestamp_nanos now)
  ]

  -- What `refresh_generation` does: answer at once, wait for the flight on record, or spawn one.
  pub data Decision : Type 0 where
    respond : CredentialSnapshot → Decision
    join spawn : Decision

  abbrev pub on_record : ℕ → Flight → Bool
  on_record generation none = false
  on_record generation (some g) = nat_eq g generation

  abbrev pub is_proactive : RefreshReason → Bool
  is_proactive proactive = true
  is_proactive unauthorized = false

  unfoldable pub refresh_generation :
      ℕ → RefreshReason → OffsetDateTime → CredentialState → Flight → Decision × Flight
  refresh_generation expected reason now state flight =
      if not (nat_eq state.generation expected)
      then (respond (snapshot_from_state state), flight)
      else if is_proactive reason && not (credential_needs_refresh state.credential now)
      then (respond (snapshot_from_state state), flight)
      else if on_record expected flight
      then (join, flight)
      else (spawn, some expected)

  -- The first block of `perform_refresh`: the refresh token to exchange, or the newer snapshot.
  unfoldable pub token_to_exchange : ℕ → CredentialState → Result CredentialSnapshot String
  token_to_exchange expected state =
      if not (nat_eq state.generation expected)
      then err (snapshot_from_state state)
      else ok state.credential.refresh_token

  -- A server error of the token endpoint takes the flight off the record, so that a later request
  -- tries again.
  unfoldable pub clear_flight : ℕ → Flight → Flight
  clear_flight expected flight = if on_record expected flight then none else flight

  abbrev pub retryable : {A : Type 0} → Result CredentialError A → Bool
  retryable (ok _) = false
  retryable (err (oauth_rejected status)) = leb 500 status && leb status 599
  retryable (err _) = false

  unfoldable pub optional_nonempty : Option String → Result CredentialError (Option String)
  optional_nonempty none = ok none
  optional_nonempty (some value) =
      if is_blank value then err invalid_oauth_response else ok (some value)

  -- The crates base64, serde_json and http: the claims in a token, and the header values.
  module _ (claimed_account : String → Option String)
      (claimed_expiry : String → Option OffsetDateTime) (is_header_value : String → Bool) where
    unfoldable pub account_id_from_id_token : String → Option String
    account_id_from_id_token id_token =
        filter_option (λ account_id. not (is_blank account_id)) (claimed_account id_token)

    unfoldable pub upstream_headers_are_valid : String → String → Bool
    upstream_headers_are_valid access_token account_id =
        is_header_value ("Bearer " ⧺ access_token) && is_header_value account_id

    unfoldable pub refreshed_credential :
        RefreshResponse → OffsetDateTime → Credential → Result CredentialError Credential
    refreshed_credential refreshed now current = do
      let account_id =
          unwrap_or (and_then refreshed.id_token account_id_from_id_token) current.account_id
      access ← optional_nonempty refreshed.access_token
      let access_token = unwrap_or access current.access_token
      refresh ← optional_nonempty refreshed.refresh_token
      let refresh_token = unwrap_or refresh current.refresh_token
      ensure (upstream_headers_are_valid access_token account_id) invalid_oauth_response
      ok (record {
        account_id = account_id;
        access_token = access_token;
        refresh_token = refresh_token;
        access_expires_at = claimed_expiry access_token;
        last_refresh = now;
      })

    -- The last block of `perform_refresh`; `save` is what the store answers. `u64` wraps.
    unfoldable pub complete_refresh :
        (Credential → Result StoreError (Unit {0}))
        → ℕ
        → RefreshResponse
        → OffsetDateTime
        → CredentialState
        → Result CredentialError CredentialSnapshot × CredentialState
    complete_refresh save expected refreshed now state =
        if not (nat_eq state.generation expected)
        then (ok (snapshot_from_state state), state)
        else elim (refreshed_credential refreshed now state.credential) [
          | err e ↦ (err e, state)
          | ok updated ↦ elim (save updated) [
            | err e ↦ (err (store_error e), state)
            | ok _ ↦
                let after : CredentialState = record {
                  credential = updated;
                  generation = (state.generation + 1) % 2 ^ 64;
                } in
                (ok (snapshot_from_state after), after)
          ]
        ]
