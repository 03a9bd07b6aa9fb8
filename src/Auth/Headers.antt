-- ===== src/Auth/Headers.antt =====
-- What the source uses of the crate http: a map from header names in lower case to values, several
-- to a name.
use codex_api.Common.{
  ◌≡◌, Bool, true, Option, none, some, List, [], ◌∷◌, String, str_eq, is_some, if◌then◌else◌,
}

pub record Headers : Type 1 where
  pub HeaderMap : Type 0
  pub HeaderValue : Type 0
  pub get_all : HeaderMap → String → List HeaderValue
  -- `HeaderValue::to_str`: visible ASCII
  pub to_str : HeaderValue → Option String
  -- `std::str::from_utf8` on the value's bytes
  pub to_utf8 : HeaderValue → Option String
  -- `HeaderValue::from_str`
  pub from_text : String → Option HeaderValue
  pub no_headers : HeaderMap
  -- `insert` puts one value in the place of all that the name has.
  pub insert_header : HeaderMap → String → HeaderValue → HeaderMap
  pub remove_header : HeaderMap → String → HeaderMap
  pub headers_eq : HeaderMap → HeaderMap → Bool
  pub get_all-no_headers : (k : String) → get_all no_headers k ≡ []
  pub get_all-insert_header :
      (m : HeaderMap) (k j : String) (v : HeaderValue)
      → get_all (insert_header m k v) j ≡ (if str_eq k j then v ∷ [] else get_all m j)
  pub get_all-remove_header :
      (m : HeaderMap) (k j : String)
      → get_all (remove_header m k) j ≡ (if str_eq k j then [] else get_all m j)
  pub headers_eq-get_all :
      (m n : HeaderMap) (k : String) → headers_eq m n ≡ true → get_all m k ≡ get_all n k

module _ ⦃H : Headers⦄ where
  open H use {HeaderMap, HeaderValue, get_all}

  -- `HeaderMap::get`: the first value.
  unfoldable pub get_header : HeaderMap → String → Option HeaderValue
  get_header headers name = elim (get_all headers name) [ [] ↦ none | value ∷ _ ↦ some value ]

  unfoldable pub has_header : HeaderMap → String → Bool
  has_header headers name = is_some (get_header headers name)
