-- ===== src/Common/Results.antt =====
-- Rust's `Result`, with `?` as the bind of a `do` block. Errors and values live in one universe.
use mathlib.Core.Path.{◌≡◌, refl}
use mathlib.Core.Logic.{◌⊎◌, inl, inr}
use mathlib.Core.Bool.{Bool, true, false}
use mathlib.Core.Option.{Option, none, some}

pub data Result (E A : Type 0) : Type 0 where
  err : E → Result E A
  ok : A → Result E A

infixl 5 ◌>>=◌ ◌>>◌
abbrev pub ◌>>=◌ : {E A B : Type 0} → Result E A → (A → Result E B) → Result E B
err error >>= next = err error
ok value >>= next = next value

abbrev pub ◌>>◌ : {E B : Type 0} → Result E (Unit {0}) → Result E B → Result E B
m >> k = m >>= λ _. k

-- `if !b { return Err(e) }`
abbrev pub ensure : {E : Type 0} → Bool → E → Result E (Unit {0})
ensure true e = ok tt
ensure false e = err e

abbrev pub ok_or : {E A : Type 0} → Option A → E → Result E A
ok_or none e = err e
ok_or (some a) e = ok a

abbrev pub map_err : {E F A : Type 0} → (E → F) → Result E A → Result F A
map_err f (ok a) = ok a
map_err f (err e) = err (f e)

-- `option.map(f).transpose()?`
abbrev pub transpose : {E A : Type 0} → Option (Result E A) → Result E (Option A)
transpose none = ok none
transpose (some (ok a)) = ok (some a)
transpose (some (err e)) = err e

pub Result-cases :
    {E A : Type 0} (r : Result E A) → ((e : E) × (r ≡ err e)) ⊎ ((a : A) × (r ≡ ok a))
Result-cases (ok a) = inr (a, refl)
Result-cases (err e) = inl (e, refl)

-- What a chain of `?` went through when it returned a value.
pub bind-ok :
    {E A B : Type 0} (m : Result E A) (next : A → Result E B) (b : B)
    → (m >>= next) ≡ ok b
    → (a : A) × (m ≡ ok a) × (next a ≡ ok b)
bind-ok (err e) next b h = absurd cc
bind-ok (ok a) next b h = (a, refl, h)

pub ensure-ok : {E : Type 0} (b : Bool) (e : E) (u : Unit {0}) → ensure b e ≡ ok u → b ≡ true
ensure-ok true e u h = refl
ensure-ok false e u h = absurd cc

pub ok-injective : {E A : Type 0} (a b : A) → ◌≡◌ {A = Result E A} (ok a) (ok b) → a ≡ b
ok-injective a b h = cc

pub ok_or-ok : {E A : Type 0} (o : Option A) (e : E) (a : A) → ok_or o e ≡ ok a → o ≡ some a
ok_or-ok none e a h = absurd cc
ok_or-ok (some b) e a h = cc
