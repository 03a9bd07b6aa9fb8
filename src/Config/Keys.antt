-- ===== src/Config/Keys.antt =====
-- src/config.rs: the fields that are deserialized by hand.
use Prim.Native.Char.{code}
use codex_api.Common.{
  ℕ, ◌+◌, ◌*◌, ◌-◌, ◌<◌, ◌≡◌, Bool, true, false, ◌&&◌, ◌||◌, not, Option, none, some, List, [], ◌∷◌,
  String, str_eq, Result, ok, err, ◌>>=◌, codes, leb, nat_eq, length, if◌then◌else◌, arith,
}
use codex_api.Store.Decimals.{Decimals}
use codex_api.Config.Types.{ApiKeyConfig}

pub data KeyError : Type 0 where
  unreadable_secret_file exactly_one_secret hard_limit_needs_weekly bad_file_mode : KeyError

-- One line end at the end of a secret file is not part of the secret.
unfoldable pub strip_line_end : String → String
strip_line_end String.[] = String.[]
strip_line_end (String.◌∷◌ c s) =
    let rest = strip_line_end s in
    if (nat_eq (code c) 10 && str_eq s "") || (nat_eq (code c) 13 && str_eq s "\n")
    then ""
    else String.◌∷◌ c rest

-- The secret, given what each file reads as: `none` where it cannot be read.
unfoldable pub resolve_secret :
    (String → Option String) → Option String → Option String → Result KeyError String
resolve_secret read (some secret) none = ok secret
resolve_secret read none (some path) = elim (read path) [
  | none ↦ err unreadable_secret_file
  | some secret ↦ ok (strip_line_end secret)
]
resolve_secret read (some secret) (some path) = err exactly_one_secret
resolve_secret read none none = err exactly_one_secret

abbrev all_octal : List ℕ → Bool
all_octal [] = true
all_octal (c ∷ s) = let rest = all_octal s in leb 48 c && leb c 55 && rest

abbrev octal : ℕ → List ℕ → ℕ
octal acc [] = acc
octal acc (c ∷ s) = octal (acc * 8 + (c - 48)) s

abbrev starts_with_zero : List ℕ → Bool
starts_with_zero [] = false
starts_with_zero (c ∷ s) = nat_eq c 48

-- `deserialize_file_mode`. Texts with characters beyond ASCII fail both in bytes and in characters.
unfoldable pub file_mode : List ℕ → Result KeyError ℕ
file_mode value =
    if not (nat_eq (length value) 4) || not (starts_with_zero value) || not (all_octal value)
    then err bad_file_mode
    else ok (octal 0 value)

-- A file mode that is accepted has no bits beyond the nine permission bits.
file_mode-lt : (value : List ℕ) (mode : ℕ) → file_mode value ≡ ok mode → mode < 512
unfolding file_mode
file_mode-lt [] mode h = absurd (ground arith)
file_mode-lt (a ∷ []) mode h = absurd (ground arith)
file_mode-lt (a ∷ b ∷ []) mode h = absurd (ground arith)
file_mode-lt (a ∷ b ∷ c ∷ []) mode h = absurd (ground arith)
file_mode-lt (a ∷ b ∷ c ∷ d ∷ []) mode h = ground arith
file_mode-lt (a ∷ b ∷ c ∷ d ∷ e ∷ s) mode h = absurd (ground arith)

unfoldable pub deserialize_file_mode : String → Result KeyError ℕ
deserialize_file_mode value = file_mode (codes value)

module _ ⦃D : Decimals⦄ where
  open D use {Decimal}

  pub record ApiKeyConfigInput : Type 0 where
    pub id : String
    pub secret : Option String
    pub secret_file : Option String
    pub weekly_limit_usd : Option Decimal
    pub hard_limit_usd : Option Decimal

  -- `default` is the decimal 600.00.
  unfoldable pub resolve_hard_limit :
      Decimal → Option Decimal → Option Decimal → Result KeyError (Option Decimal)
  resolve_hard_limit default none (some hard) = err hard_limit_needs_weekly
  resolve_hard_limit default none none = ok none
  resolve_hard_limit default (some weekly) (some hard) = ok (some hard)
  resolve_hard_limit default (some weekly) none = ok (some default)

  unfoldable pub api_key_config :
      (String → Option String) → Decimal → ApiKeyConfigInput → Result KeyError ApiKeyConfig
  api_key_config read default input = do
    secret ← resolve_secret read input.secret input.secret_file
    hard_limit_usd ← resolve_hard_limit default input.weekly_limit_usd input.hard_limit_usd
    ok (record {
      id = input.id;
      secret = secret;
      weekly_limit_usd = input.weekly_limit_usd;
      hard_limit_usd = hard_limit_usd;
    })
