-- ===== src/Auth/Plain.antt =====
-- An instance of the interface to headers, on which the tests run: the values in the order of their
-- names' insertion.
use codex_api.Common.{
  ◌≡◌, refl, Bool, true, false, ◌&&◌, some, List, [], ◌∷◌, String, str_eq, eq_iff, arith,
  if◌then◌else◌,
}
use codex_api.Auth.Headers.{Headers}

abbrev pub HeaderList : Type 0
HeaderList = List (String × String)

abbrev pub values : HeaderList → String → List String
values [] name = []
values ((k, v) ∷ m) name = let rest = values m name in if str_eq k name then v ∷ rest else rest

abbrev pub without : HeaderList → String → HeaderList
without [] name = []
without ((k, v) ∷ m) name =
    let rest = without m name in if str_eq k name then rest else (k, v) ∷ rest

abbrev pub same : HeaderList → HeaderList → Bool
same [] [] = true
same [] (_ ∷ _) = false
same (_ ∷ _) [] = false
same ((k, v) ∷ m) ((j, w) ∷ n) = str_eq k j && str_eq v w && same m n

pub values-without :
    (m : HeaderList) (k j : String)
    → values (without m k) j ≡ (if str_eq k j then [] else values m j)
values-without [] k j = ground arith
values-without ((i, w) ∷ m) k j =
    ground (arith, eq_iff k j, eq_iff i k, eq_iff i j, values-without m k j)

pub values-insert :
    (m : HeaderList) (k j : String) (v : String)
    → values ((k, v) ∷ without m k) j ≡ (if str_eq k j then v ∷ [] else values m j)
values-insert m k j v = ground (arith, values-without m k j)

pub same-values : (m n : HeaderList) (k : String) → same m n ≡ true → values m k ≡ values n k
same-values [] [] k h = refl
same-values [] (_ ∷ _) k h = absurd cc
same-values (_ ∷ _) [] k h = absurd cc
same-values ((i, v) ∷ m) ((j, w) ∷ n) k h =
    ground (arith, eq_iff i j, eq_iff v w, same-values m n k)

instance abbrev pub plain_headers : Headers
plain_headers = record {
  HeaderMap = HeaderList;
  HeaderValue = String;
  get_all = values;
  to_str = λ value. some value;
  to_utf8 = λ value. some value;
  from_text = λ text. some text;
  no_headers = [];
  insert_header = λ m k v. (k, v) ∷ without m k;
  remove_header = without;
  headers_eq = same;
  get_all-no_headers = λ k. refl;
  get_all-insert_header = values-insert;
  get_all-remove_header = values-without;
  headers_eq-get_all = same-values;
}
