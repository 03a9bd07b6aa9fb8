-- ===== src/Common/Texts.antt =====
-- Texts are native strings; the functions on characters that the source uses of `str`.
use Prim.Native.Nat.{ℕ, ◌+◌, ◌-◌, ◌*◌}
use Prim.Native.Char.{code}
use Prim.Native.String.{String, ◌++◌}
use mathlib.Core.Bool.{Bool, true, false, ◌||◌, ◌&&◌}
use mathlib.Core.List.{List, [], ◌∷◌, reverse}
use codex_api.Common.Tests.{leb, nat_eq, if◌then◌else◌}
use codex_api.Common.Lists.{all}
pub use text.Mathlib.Text.{◌==◌ as str_eq}
pub use text.Mathlib.TextEquality.{eq_iff}
pub use text.Mathlib.TextPositions.{eq_refl}
pub use text.Mathlib.TextLemmas.{nil-append as nil-append_text, cons-append as cons-append_text}

-- `format!` of two parts.
infixr 66 ◌⧺◌
abbrev pub ◌⧺◌ : String → String → String
s ⧺ t = s ++ t

-- `str::chars`, as code points.
abbrev pub codes : String → List ℕ
codes String.[] = []
codes (String.◌∷◌ c s) = code c ∷ codes s

-- `u8::is_ascii_digit` and `u8::is_ascii_whitespace`.
abbrev pub is_digit : ℕ → Bool
is_digit c = leb 48 c && leb c 57

abbrev pub is_ascii_whitespace : ℕ → Bool
is_ascii_whitespace c = nat_eq c 9 || nat_eq c 10 || nat_eq c 12 || nat_eq c 13 || nat_eq c 32

-- `char::is_whitespace`: the Unicode property White_Space.
abbrev pub is_whitespace : ℕ → Bool
is_whitespace c =
    (leb 9 c && leb c 13)
    || nat_eq c 32
    || nat_eq c 133
    || nat_eq c 160
    || nat_eq c 5760
    || (leb 8192 c && leb c 8202)
    || nat_eq c 8232
    || nat_eq c 8233
    || nat_eq c 8239
    || nat_eq c 8287
    || nat_eq c 12288

-- `str::trim`, on code points.
abbrev pub trim_start : List ℕ → List ℕ
trim_start [] = []
trim_start (c ∷ s) = let rest = trim_start s in if is_whitespace c then rest else c ∷ s

abbrev pub trim_codes : List ℕ → List ℕ
trim_codes s = reverse (trim_start (reverse (trim_start s)))

-- `value.trim().is_empty()`: every character is white space.
abbrev pub is_blank : String → Bool
is_blank s = all is_whitespace (codes s)

-- `str::eq_ignore_ascii_case`
abbrev pub lower : ℕ → ℕ
lower c = if leb 65 c && leb c 90 then c + 32 else c

abbrev pub same_ignoring_case : List ℕ → List ℕ → Bool
same_ignoring_case [] [] = true
same_ignoring_case (c ∷ s) (d ∷ t) = nat_eq (lower c) (lower d) && same_ignoring_case s t
same_ignoring_case _ _ = false

-- The number that decimal digits spell.
abbrev pub decimal : ℕ → List ℕ → ℕ
decimal acc [] = acc
decimal acc (c ∷ s) = decimal (acc * 10 + (c - 48)) s
