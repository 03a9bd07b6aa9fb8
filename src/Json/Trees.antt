-- ===== src/Json/Trees.antt =====
-- Finite trees as JSON values, with maps as association lists.
use codex_api.Common.{
  ℤ, ◌≡◌, refl, Bool, Option, none, some, List, [], ◌∷◌, String, str_eq, eq_iff, eq_refl,
  if◌then◌else◌, arith, ap,
}
use codex_api.Json.{View, null, bool, number, string, array, object}

mutual
  pub data Plain : Type 0 where
    p_null : Plain
    p_bool : Bool → Plain
    p_number : ℤ → Plain
    p_string : String → Plain
    p_array : Items → Plain
    p_object : Members → Plain

  pub data Items : Type 0 where
    nil : Items
    cons : Plain → Items → Items

  pub data Members : Type 0 where
    end : Members
    member : String → Plain → Members → Members

abbrev pub items : List Plain → Items
items [] = nil
items (x ∷ xs) = cons x (items xs)

abbrev pub list : Items → List Plain
list nil = []
list (cons x xs) = x ∷ list xs

abbrev pub members : List (String × Plain) → Members
members [] = end
members ((k, v) ∷ m) = member k v (members m)

abbrev pub pairs : Members → List (String × Plain)
pairs end = []
pairs (member k v m) = (k, v) ∷ pairs m

list-items : (xs : List Plain) → list (items xs) ≡ xs
list-items [] = refl
list-items (x ∷ xs) = ap (◌∷◌ x) (list-items xs)

pairs-members : (m : List (String × Plain)) → pairs (members m) ≡ m
pairs-members [] = refl
pairs-members ((k, v) ∷ m) = ap (◌∷◌ (k, v)) (pairs-members m)

abbrev pub PlainView : Type 0
PlainView = View Plain (List (String × Plain)) ℤ

abbrev pub plain_view : Plain → PlainView
plain_view p_null = null
plain_view (p_bool b) = bool b
plain_view (p_number n) = number n
plain_view (p_string s) = string s
plain_view (p_array xs) = array (list xs)
plain_view (p_object m) = object (pairs m)

abbrev pub plain_make : PlainView → Plain
plain_make null = p_null
plain_make (bool b) = p_bool b
plain_make (number n) = p_number n
plain_make (string s) = p_string s
plain_make (array xs) = p_array (items xs)
plain_make (object m) = p_object (members m)

pub view-make_plain : (v : PlainView) → plain_view (plain_make v) ≡ v
view-make_plain null = refl
view-make_plain (bool b) = refl
view-make_plain (number n) = refl
view-make_plain (string s) = refl
view-make_plain (array xs) = ap array (list-items xs)
view-make_plain (object m) = ap object (pairs-members m)

abbrev pub lookup : List (String × Plain) → String → Option Plain
lookup [] k = none
lookup ((j, v) ∷ m) k = if str_eq j k then some v else lookup m k

abbrev pub put : List (String × Plain) → String → Plain → List (String × Plain)
put [] k v = (k, v) ∷ []
put ((j, w) ∷ m) k v = if str_eq j k then (k, v) ∷ m else (j, w) ∷ put m k v

abbrev pub without : List (String × Plain) → String → List (String × Plain)
without [] k = []
without ((j, w) ∷ m) k = let rest = without m k in if str_eq j k then rest else (j, w) ∷ rest

pub lookup-put :
    (m : List (String × Plain)) (k j : String) (v : Plain)
    → lookup (put m k v) j ≡ (if str_eq k j then some v else lookup m j)
lookup-put [] k j v = refl
lookup-put ((i, w) ∷ m) k j v =
    ground (arith, eq_iff k j, eq_iff i k, eq_iff i j, lookup-put m k j v)

pub lookup-without :
    (m : List (String × Plain)) (k j : String)
    → lookup (without m k) j ≡ (if str_eq k j then none else lookup m j)
lookup-without [] k j = ground arith
lookup-without ((i, w) ∷ m) k j =
    ground (arith, eq_iff k j, eq_iff i k, eq_iff i j, lookup-without m k j)

pub lookup-nil : (m : List (String × Plain)) → m ≡ [] → (k : String) → lookup m k ≡ none
lookup-nil m e k = rw e

pub lookup-cons :
    (m : List (String × Plain)) (k : String) (v : Plain) (rest : List (String × Plain))
    → m ≡ (k, v) ∷ rest
    → lookup m k ≡ some v
lookup-cons m k v rest e = rw (e, eq_refl)
