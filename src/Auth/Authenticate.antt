-- ===== src/Auth/Authenticate.antt =====
-- src/auth.rs: `authenticate`.
use Prim.Native.Char.{code}
use codex_api.Common.{
  Bool, not, ◌&&◌, Option, none, some, List, [], ◌∷◌, any, String, str_eq, codes,
  is_ascii_whitespace, nat_eq, Result, ok, err, ◌>>=◌, ok_or, filter_option, if◌then◌else◌,
}
use codex_api.Store.Decimals.{Decimals}
use codex_api.Store.Types.{QuotaLimits}
use codex_api.Config.Types.{ApiKeyConfig}
use codex_api.Errors.Api.{ApiError, invalid_api_key}
use codex_api.Auth.Headers.{Headers}

-- `str::strip_prefix`
unfoldable pub strip_prefix : String → String → Option String
strip_prefix String.[] s = some s
strip_prefix (String.◌∷◌ c p) String.[] = none
strip_prefix (String.◌∷◌ c p) (String.◌∷◌ d s) =
    let rest = strip_prefix p s in if nat_eq (code c) (code d) then rest else none

abbrev pub is_token : String → Bool
is_token token = not (str_eq token "") && not (any is_ascii_whitespace (codes token))

unfoldable pub bearer_token : String → Option String
bearer_token authorization = filter_option is_token (strip_prefix "Bearer " authorization)

module _ ⦃D : Decimals⦄ where
  pub record ClientIdentity : Type 0 where
    pub id : String
    pub quota : QuotaLimits

  -- `ct_eq` on the bytes is equality.
  unfoldable pub find_key : String → List ApiKeyConfig → Option ApiKeyConfig
  find_key provided [] = none
  find_key provided (key ∷ keys) =
      if str_eq provided key.secret then some key else find_key provided keys

  unfoldable pub identity : ApiKeyConfig → ClientIdentity
  identity key = record {
    id = key.id;
    quota = record { weekly_limit_usd = key.weekly_limit_usd; hard_limit_usd = key.hard_limit_usd };
  }

  unfoldable pub identify : String → List ApiKeyConfig → Result ApiError ClientIdentity
  unfolding identity
  identify authorization keys = do
    provided ← ok_or (bearer_token authorization) invalid_api_key
    key ← ok_or (find_key provided keys) invalid_api_key
    ok (identity key)

module _ ⦃D : Decimals⦄ ⦃H : Headers⦄ where
  open H use {HeaderMap, HeaderValue, get_all, to_str}

  unfoldable pub authenticate : HeaderMap → List ApiKeyConfig → Result ApiError ClientIdentity
  authenticate headers api_keys = elim (get_all headers "authorization") [
    | [] ↦ err invalid_api_key
    | value ∷ more ↦ do
      authorization ← ok_or (to_str value) invalid_api_key
      elim more [ [] ↦ identify authorization api_keys | _ ∷ _ ↦ err invalid_api_key ]
  ]
