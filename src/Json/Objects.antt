-- ===== src/Json/Objects.antt =====
-- Reading what was built: the laws of the accessors on constructed values.
use codex_api.Common.{
  ◌≡◌, refl, ap, Option, none, some, String, unwrap_or, str_eq, if◌then◌else◌, Bool-cases, inl, inr,
}
use codex_api.Json.{Json, View, null, bool, number, string, array, object}
use codex_api.Json.Access.{index, get_field, as_object, as_str, json_string, json_option}

module _ ⦃J : Json⦄ where
  open J use {Value, Fields, Number, view, make, view-make, get, insert, get-insert, get-empty}

  pub as_str-json_string : (s : String) → as_str (json_string s) ≡ some s
  unfolding as_str json_string
  as_str-json_string s =
      ap (λ (w : View Value Fields Number). elim w [ string t ↦ some t | _ ↦ none ])
        (view-make (string s))

  pub as_str-json_option : (o : Option String) → as_str (json_option o) ≡ o
  unfolding as_str json_option json_string
  as_str-json_option none =
      ap (λ (w : View Value Fields Number). elim w [ string t ↦ some t | _ ↦ none ])
        (view-make null)
  as_str-json_option (some s) =
      ap (λ (w : View Value Fields Number). elim w [ string t ↦ some t | _ ↦ none ])
        (view-make (string s))

  pub get_field-object : (m : Fields) (k : String) → get_field (make (object m)) k ≡ get m k
  unfolding get_field
  get_field-object m k =
      ap (λ (w : View Value Fields Number). elim w [ object n ↦ get n k | _ ↦ none ])
        (view-make (object m))

  pub get_field-as_object :
      (v : Value) (m : Fields) (k : String) → as_object v ≡ some m → get_field v k ≡ get m k
  unfolding as_object get_field
  get_field-as_object v m k h = go (view v) h
    where
      go :
          (w : View Value Fields Number)
          → elim w [ object n ↦ some n | _ ↦ none ] ≡ some m
          → elim w [ object n ↦ get n k | _ ↦ none ] ≡ get m k
      go (object n) h = cc
      go null h = absurd cc
      go (bool b) h = absurd cc
      go (number n) h = absurd cc
      go (string s) h = absurd cc
      go (array xs) h = absurd cc

  pub index-object :
      (m : Fields) (k : String) → index (make (object m)) k ≡ unwrap_or (get m k) (make null)
  unfolding index
  index-object m k = ap (λ (o : Option Value). unwrap_or o (make null)) (get_field-object m k)

  -- The last of the pairs with a key is what the object holds.
  pub index-insert :
      (m : Fields) (k j : String) (v : Value)
      → index (make (object (insert m k v))) j
        ≡ (if str_eq k j then v else index (make (object m)) j)
  index-insert m k j v = elim (Bool-cases (str_eq k j)) [
    | inl p ↦ rw (index-object (insert m k v) j, get-insert m k j v, p) refl
    | inr p ↦ rw (index-object (insert m k v) j, get-insert m k j v, p, index-object m j) refl
  ]
