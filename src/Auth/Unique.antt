-- ===== src/Auth/Unique.antt =====
-- A validated list of keys identifies each of its clients (src/auth.rs with src/config.rs).
use codex_api.Common.{
  ◌≡◌, refl, Bool, true, false, some, List, [], ◌∷◌, ◌++◌, any, String, str_eq, eq_refl, ◌⧺◌,
  nil-append_text, cons-append_text, ok, arith,
}
use codex_api.Store.Decimals.{Decimals}
use codex_api.Config.Types.{ApiKeyConfig}
use codex_api.Config.Validate.{validate_key, validate_keys}
use codex_api.Auth.Headers.{Headers}
use codex_api.Auth.Authenticate.{
  strip_prefix, is_token, bearer_token, find_key, identity, identify, authenticate,
}

strip_prefix-append : (p s : String) → strip_prefix p (p ⧺ s) ≡ some s
unfolding strip_prefix
strip_prefix-append String.[] s = rw (nil-append_text s) refl
strip_prefix-append (String.◌∷◌ c p) s =
    rw (cons-append_text c p s) (ground (arith, strip_prefix-append p s))

module _ ⦃D : Decimals⦄ where
  module _ (f : Bool) (key : ApiKeyConfig) (after : List ApiKeyConfig) where
    validate_keys-fresh :
        (before : List ApiKeyConfig) (ids secrets : List String)
        → validate_keys f ids secrets (before ++ key ∷ after) ≡ ok tt
        → (any (str_eq key.secret) secrets ≡ false) × (is_token key.secret ≡ true)
    unfolding validate_keys validate_key
    validate_keys-fresh [] ids secrets h = ground (arith, h)
    validate_keys-fresh (k ∷ before) ids secrets h =
        ground (arith, h, validate_keys-fresh before (k.id ∷ ids) (k.secret ∷ secrets))

    find_key-own :
        (before : List ApiKeyConfig) (ids secrets : List String)
        → validate_keys f ids secrets (before ++ key ∷ after) ≡ ok tt
        → find_key key.secret (before ++ key ∷ after) ≡ some key
    unfolding find_key validate_keys
    find_key-own [] ids secrets h = ground (arith, eq_refl key.secret)
    find_key-own (k ∷ before) ids secrets h = ground (
      arith,
      h,
      validate_keys-fresh before (k.id ∷ ids) (k.secret ∷ secrets),
      find_key-own before (k.id ∷ ids) (k.secret ∷ secrets),
    )

module _ ⦃D : Decimals⦄ ⦃H : Headers⦄ where
  open H use {HeaderMap, HeaderValue, get_all, to_str}

  -- With keys that passed validation, a request whose only Authorization header is `Bearer ` and
  -- the secret of a key is authenticated as that key's client, with that key's limits.
  pub authenticate-own :
      (f : Bool) (before after : List ApiKeyConfig) (key : ApiKeyConfig) (headers : HeaderMap)
      (value : HeaderValue)
      → validate_keys f [] [] (before ++ key ∷ after) ≡ ok tt
      → get_all headers "authorization" ≡ value ∷ []
      → to_str value ≡ some ("Bearer " ⧺ key.secret)
      → authenticate headers (before ++ key ∷ after) ≡ ok (identity key)
  unfolding authenticate identify bearer_token
  authenticate-own f before after key headers value v g t =
      let (fresh, token) = validate_keys-fresh f key after before [] [] v in
      let own = find_key-own f key after before [] [] v in
      let prefix = strip_prefix-append "Bearer " key.secret in
      rw (g, authenticate) (rw (t, authenticate) (ground (arith, prefix, token, own)))
