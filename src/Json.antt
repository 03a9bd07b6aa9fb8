-- ===== src/Json.antt =====
-- What the relay uses of the crate serde_json: the type `Value`, its maps and its numbers.
-- The crate is not part of the repository, so it is an interface with the documented laws.
pub mod Access
pub mod Objects
pub mod Trees
pub mod Equality
pub mod Plain
use codex_api.Common.{
  ℕ, ◌<◌, ◌^◌, ℤ, ◌≡◌, ◌≢◌, Bool, true, false, Option, none, some, List, [], ◌∷◌, String, str_eq,
  if◌then◌else◌,
}

-- The constructors of `serde_json::Value`.
pub data View (V M N : Type 0) : Type 0 where
  null : View V M N
  bool : Bool → View V M N
  number : N → View V M N
  string : String → View V M N
  array : List V → View V M N
  object : M → View V M N

pub record Json : Type 1 where
  pub Value : Type 0
  -- `serde_json::Map<String, Value>`
  pub Fields : Type 0
  pub Number : Type 0
  pub view : Value → View Value Fields Number
  pub make : View Value Fields Number → Value
  pub view-make : (v : View Value Fields Number) → view (make v) ≡ v
  pub get : Fields → String → Option Value
  pub empty : Fields
  pub insert : Fields → String → Value → Fields
  pub remove : Fields → String → Fields
  -- `Map::iter`
  pub entries : Fields → List (String × Value)
  pub get-empty : (k : String) → get empty k ≡ none
  pub get-insert :
      (m : Fields) (k j : String) (v : Value)
      → get (insert m k v) j ≡ (if str_eq k j then some v else get m j)
  pub get-remove :
      (m : Fields) (k j : String) → get (remove m k) j ≡ (if str_eq k j then none else get m j)
  -- A map whose iterator is at its end has no key.
  pub entries-nil : (m : Fields) → entries m ≡ [] → (k : String) → get m k ≡ none
  -- A map whose iterator yields a pair holds it.
  pub entries-cons :
      (m : Fields) (k : String) (v : Value) (rest : List (String × Value))
      → entries m ≡ (k, v) ∷ rest
      → get m k ≡ some v
  pub number_u64 : Number → Option ℕ
  pub number_i64 : Number → Option ℤ
  pub number_u64-lt : (n : Number) (k : ℕ) → number_u64 n ≡ some k → k < 2 ^ 64
  pub from_u64 : ℕ → Number
  pub from_i64 : ℤ → Number
  -- `==` on values
  pub value_eq : Value → Value → Bool
  pub value_eq-refl : (v : Value) → value_eq v v ≡ true
  pub value_eq-trans :
      (u v w : Value) → value_eq u v ≡ true → value_eq v w ≡ true → value_eq u w ≡ true
  pub from_str : String → Option Value
  pub to_text : Value → String
