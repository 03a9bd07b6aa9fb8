-- ===== src/Common/Lists.antt =====
-- Lists measured by native numbers, and predicates on their members by recursion.
use Prim.Native.Nat.{ℕ, zero, suc, ◌+◌}
use mathlib.Core.Path.{◌≡◌, refl}
use mathlib.Core.Logic.{◌⊎◌, inl, inr}
use mathlib.Core.Bool.{Bool, true, false, ◌||◌, ◌&&◌}
use mathlib.Core.Option.{Option, none, some}
use mathlib.Core.List.{List, [], ◌∷◌, ◌++◌}
use native.Mathlib.Omega.{arith}

module _ {ℓ} {A : Type ℓ} where
  abbrev pub length : List A → ℕ
  length [] = 0
  length (x ∷ xs) = suc (length xs)

  abbrev pub is_empty : List A → Bool
  is_empty [] = true
  is_empty (x ∷ xs) = false

  -- Iterator::any and Iterator::all.
  abbrev pub any : (A → Bool) → List A → Bool
  any p [] = false
  any p (x ∷ xs) = p x || any p xs

  abbrev pub all : (A → Bool) → List A → Bool
  all p [] = true
  all p (x ∷ xs) = p x && all p xs

  pub length-append : (xs ys : List A) → length (xs ++ ys) ≡ length xs + length ys
  length-append [] ys = omega arith
  length-append (x ∷ xs) ys = omega (arith, length-append xs ys)

module _ {ℓ κ} {A : Type ℓ} where
  abbrev pub All : (A → Type κ) → List A → Type κ
  All P [] = Unit
  All P (x ∷ xs) = P x × All P xs

module _ {ℓ} {A : Type ℓ} where
  -- `l[n..]`
  abbrev pub skip : ℕ → List A → List A
  skip zero l = l
  skip (suc n) [] = []
  skip (suc n) (x ∷ l) = skip n l

-- `Option::filter`, `unwrap_or`, `is_some` and `is_none` of the standard library.
module _ {ℓ} {A : Type ℓ} where
  abbrev pub filter_option : (A → Bool) → Option A → Option A
  filter_option p none = none
  filter_option p (some a) = elim (p a) [ true ↦ some a | false ↦ none ]

  abbrev pub unwrap_or : Option A → A → A
  unwrap_or none d = d
  unwrap_or (some a) d = a

  abbrev pub is_some : Option A → Bool
  is_some none = false
  is_some (some a) = true

  abbrev pub is_none : Option A → Bool
  is_none none = true
  is_none (some a) = false

module _ {ℓ κ} {A : Type ℓ} {B : Type κ} where
  abbrev pub and_then : Option A → (A → Option B) → Option B
  and_then none f = none
  and_then (some a) f = f a

  abbrev pub map_option : (A → B) → Option A → Option B
  map_option f none = none
  map_option f (some a) = some (f a)

pub List-cases {ℓ} : {A : Type ℓ} (l : List A) → (l ≡ []) ⊎ ((x : A) × (xs : List A) × (l ≡ x ∷ xs))
List-cases [] = inl refl
List-cases (x ∷ xs) = inr (x, xs, refl)

pub filter_option-some {ℓ} :
    {A : Type ℓ} (test : A → Bool) (o : Option A) (a : A)
    → filter_option test o ≡ some a
    → (o ≡ some a) × (test a ≡ true)
filter_option-some test none a h = absurd cc
filter_option-some test (some b) a h = ground arith
