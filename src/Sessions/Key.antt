-- ===== src/Sessions/Key.antt =====
-- src/http_api/responses_session.rs: `SessionKey`, with its derived equality, and how it is read.
use codex_api.Common.{
  ◌≡◌, ◌↔◌, Bool, true, not, ◌&&◌, Option, none, some, List, [], ◌∷◌, String, str_eq, eq_iff,
  is_blank, filter_option, Result, ok, err, arith,
}
use codex_api.Auth.Headers.{Headers, get_header}
use codex_api.Errors.Api.{ApiError, invalid}

pub record SessionKey : Type 0 where
  pub client : String
  pub header : String
  pub value : String

unfoldable pub key_eq : SessionKey → SessionKey → Bool
key_eq k j = str_eq k.client j.client && str_eq k.header j.header && str_eq k.value j.value

pub key_eq_iff : (k j : SessionKey) → (key_eq k j ≡ true) ↔ (k ≡ j)
unfolding key_eq
key_eq_iff k j = (
  λ h. ground (arith, eq_iff k.client j.client, eq_iff k.header j.header, eq_iff k.value j.value),
  λ h. ground (arith, eq_iff k.client j.client, eq_iff k.header j.header, eq_iff k.value j.value),
)

module _ ⦃H : Headers⦄ where
  open H use {HeaderMap, to_str}

  -- The loop over the names of the headers that can hold the key.
  unfoldable pub key_of : String → HeaderMap → List String → Result ApiError (Option SessionKey)
  key_of client headers [] = ok none
  key_of client headers (header ∷ names) = elim (get_header headers header) [
    | none ↦ key_of client headers names
    | some found ↦ elim (filter_option (λ value. not (is_blank value)) (to_str found)) [
      | none ↦ err (invalid header "session header must be a nonempty string")
      | some value ↦ ok (some (record { client = client; header = header; value = value }))
    ]
  ]

  unfoldable pub from_headers : String → HeaderMap → Result ApiError (Option SessionKey)
  from_headers client headers = key_of client headers ("thread_id" ∷ "session_id" ∷ [])
