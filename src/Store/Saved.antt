-- ===== src/Store/Saved.antt =====
-- src/store.rs: the credentials row, `load_or_import_credentials` and `save_credentials`. Each
-- runs in a transaction, and a failure leaves the table as it was. `db` says whether the database
-- answers the read and accepts the write.
use codex_api.Common.{
  ◌≡◌, refl, inl, inr, ℤ, ltb_ℤ, Bool, true, false, Option, none, some, String, Result, ok, err,
  ◌>>=◌, ◌>>◌, ensure, map_option, if◌then◌else◌, Result-cases, arith,
}
use codex_api.Store.Times.{Times}
use codex_api.Store.Types.{Credential, StoreError, database, credentials_not_initialized}
use codex_api.Store.Cost.{timestamp_ns, optional_timestamp_ns, to_i64_or_range}

pub record CredentialRow : Type 0 where
  pub account_id : String
  pub access_token : String
  pub refresh_token : String
  pub access_expires_at_ns : Option ℤ
  pub last_refresh_ns : ℤ

-- The table has one row at most.
abbrev pub CredentialTable : Type 0
CredentialTable = Option CredentialRow

module _ ⦃T : Times⦄ where
  open T use {OffsetDateTime, unix_timestamp_nanos, from_nanos, from_nanos-nanos}

  -- Every 64-bit number of nanoseconds is in the range of `OffsetDateTime`.
  abbrev pub offset_from_ns : ℤ → OffsetDateTime
  offset_from_ns value = from_nanos value

  unfoldable pub credential_from_row : CredentialRow → Credential
  credential_from_row row = record {
    account_id = row.account_id;
    access_token = row.access_token;
    refresh_token = row.refresh_token;
    access_expires_at = map_option offset_from_ns row.access_expires_at_ns;
    last_refresh = offset_from_ns row.last_refresh_ns;
  }

  -- The values that INSERT and UPDATE bind.
  unfoldable pub row_of : Credential → Result StoreError CredentialRow
  row_of credential = do
    access_expires_at_ns ← optional_timestamp_ns credential.access_expires_at
    last_refresh_ns ← timestamp_ns credential.last_refresh
    ok (record {
      account_id = credential.account_id;
      access_token = credential.access_token;
      refresh_token = credential.refresh_token;
      access_expires_at_ns = access_expires_at_ns;
      last_refresh_ns = last_refresh_ns;
    })

  unfoldable pub write_row : Bool → Credential → Result StoreError CredentialRow
  write_row accepts credential = do row ← row_of credential; ensure accepts database; ok row

  unfoldable pub import_seed :
      Bool → Credential → CredentialTable → Result StoreError Credential × CredentialTable
  import_seed accepts seed table = elim (write_row accepts seed) [
    | err e ↦ (err e, table)
    | ok row ↦ (ok seed, some row)
  ]

  unfoldable pub load_or_import_credentials :
      Bool × Bool → Credential → CredentialTable → Result StoreError Credential × CredentialTable
  load_or_import_credentials (answers, accepts) seed table = elim answers [
    | false ↦ (err database, table)
    | true ↦ elim table [
      | none ↦ import_seed accepts seed none
      | some row ↦
          let current = credential_from_row row in
          if ltb_ℤ (unix_timestamp_nanos current.last_refresh)
            (unix_timestamp_nanos seed.last_refresh)
          then import_seed accepts seed (some row)
          else (ok current, some row)
    ]
  ]

  -- The UPDATE must affect the one row.
  unfoldable pub save_credentials :
      Bool → Credential → CredentialTable → Result StoreError (Unit {0}) × CredentialTable
  save_credentials accepts credential table = elim (write_row accepts credential) [
    | err e ↦ (err e, table)
    | ok row ↦ elim table [
      | none ↦ (err credentials_not_initialized, none)
      | some _ ↦ (ok tt, some row)
    ]
  ]

  timestamp_ns-ok : (t : OffsetDateTime) (n : ℤ) → timestamp_ns t ≡ ok n → offset_from_ns n ≡ t
  unfolding timestamp_ns to_i64_or_range
  timestamp_ns-ok t n h = ground (arith, h, from_nanos-nanos t)

  optional_timestamp_ns-ok :
      (t : Option OffsetDateTime) (n : Option ℤ)
      → optional_timestamp_ns t ≡ ok n
      → map_option offset_from_ns n ≡ t
  unfolding optional_timestamp_ns timestamp_ns to_i64_or_range
  optional_timestamp_ns-ok none n h = ground (arith, h)
  optional_timestamp_ns-ok (some t) n h = ground (arith, h, from_nanos-nanos t)

  row_of-ok :
      (c : Credential) (row : CredentialRow) → row_of c ≡ ok row → credential_from_row row ≡ c
  unfolding row_of credential_from_row
  row_of-ok c row h = elim (Result-cases (optional_timestamp_ns c.access_expires_at)) [
    | inl (e, p) ↦ cc (rw (p, row_of) at h)
    | inr (expires, p) ↦ elim (Result-cases (timestamp_ns c.last_refresh)) [
      | inl (e, q) ↦ cc (rw (p, q, row_of) at h)
      | inr (last, q) ↦
          let k = rw (p, q, row_of) at h in
          ground (
            arith,
            k,
            optional_timestamp_ns-ok c.access_expires_at expires p,
            timestamp_ns-ok c.last_refresh last q,
          )
    ]
  ]

  -- What was saved is loaded again at the next start, with every field, unless the seed file was
  -- refreshed later.
  pub load-save :
      (accepts accepts' : Bool) (c seed : Credential) (before after : CredentialTable)
      → save_credentials accepts c before ≡ (ok tt, after)
      → ltb_ℤ (unix_timestamp_nanos c.last_refresh) (unix_timestamp_nanos seed.last_refresh) ≡ false
      → load_or_import_credentials (true, accepts') seed after ≡ (ok c, after)
  unfolding save_credentials load_or_import_credentials write_row
  load-save accepts accepts' c seed none after h older = elim (Result-cases (write_row accepts c)) [
    | inl (e, p) ↦ absurd (cc (rw (p, save_credentials) at h))
    | inr (row, p) ↦ absurd (cc (rw (p, save_credentials) at h))
  ]
  load-save accepts accepts' c seed (some old) after h older =
      elim (Result-cases (write_row accepts c)) [
        | inl (e, p) ↦ absurd (cc (rw (p, save_credentials) at h))
        | inr (row, p) ↦
            let same : after ≡ some row = cc (rw (p, save_credentials) at h) in
            let loaded : credential_from_row row ≡ c = row_of-ok c row (ground (arith, p)) in
            rw same (rw (loaded, older, load_or_import_credentials) refl)
      ]
