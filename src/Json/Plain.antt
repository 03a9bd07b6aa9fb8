-- ===== src/Json/Plain.antt =====
-- A concrete instance of the interface, on finite trees.
-- It shows that the laws can hold, and the tests and examples run on it.
use Prim.Native.Nat.{◌^◌}
use codex_api.Common.{
  ℕ, ◌<◌, ℤ, pos, negsuc, ltb, fits_i64, ◌≡◌, refl, Option, none, some, List, [], ◌∷◌, String,
  if◌then◌else◌, arith,
}
use codex_api.Json.{Json}
use codex_api.Json.Trees.{
  Plain, end, lookup, lookup-cons, lookup-nil, lookup-put, lookup-without, member, p_object,
  p_string, plain_make, plain_view, put, view-make_plain, without,
}
use codex_api.Json.Equality.{plain_eq, value_eq-refl_plain, value_eq-trans_plain}

abbrev pub plain_u64 : ℤ → Option ℕ
plain_u64 (pos n) = if ltb n (2 ^ 64) then some n else none
plain_u64 (negsuc n) = none

pub plain_u64-lt : (n : ℤ) (k : ℕ) → plain_u64 n ≡ some k → k < 2 ^ 64
plain_u64-lt n k h = ground arith

abbrev plain_i64 : ℤ → Option ℤ
plain_i64 n = if fits_i64 n then some n else none

-- The texts that are read; no other is.
abbrev pub texts : List (String × Plain)
texts =
    (
      "{\"type\":\"response.create\",\"model\":\"gpt-5\",\"input\":\"hi\"}",
      p_object (
          member "type" (p_string "response.create")
            (member "model" (p_string "gpt-5") (member "input" (p_string "hi") end))),
    )
    ∷ ("{\"type\":\"error\"}", p_object (member "type" (p_string "error") end))
    ∷ ("{}", p_object end)
    ∷ []

instance abbrev pub plain_json : Json
plain_json = record {
  Value = Plain;
  Fields = List (String × Plain);
  Number = ℤ;
  view = plain_view;
  make = plain_make;
  view-make = view-make_plain;
  get = lookup;
  empty = [];
  insert = put;
  remove = without;
  entries = λ m. m;
  get-empty = λ k. refl;
  get-insert = lookup-put;
  get-remove = lookup-without;
  entries-nil = lookup-nil;
  entries-cons = lookup-cons;
  number_u64 = plain_u64;
  number_i64 = plain_i64;
  number_u64-lt = plain_u64-lt;
  from_u64 = pos;
  from_i64 = λ n. n;
  value_eq = plain_eq;
  value_eq-refl = value_eq-refl_plain;
  value_eq-trans = value_eq-trans_plain;
  from_str = lookup texts;
  to_text = λ v. "";
}
