-- ===== src/Json/Access.antt =====
-- The accessors of `serde_json::Value` that the source calls, over its view.
use codex_api.Common.{
  ℕ, ℤ, Bool, true, false, Option, none, some, List, [], ◌∷◌, String, and_then, unwrap_or,
}
use codex_api.Json.{null, bool, number, string, array, object, Json}

module _ ⦃J : Json⦄ where
  open J use {Value, Fields, view, make, get, insert, empty, number_u64, number_i64}

  unfoldable pub as_object : Value → Option Fields
  as_object v = elim (view v) [ object m ↦ some m | _ ↦ none ]

  unfoldable pub as_array : Value → Option (List Value)
  as_array v = elim (view v) [ array xs ↦ some xs | _ ↦ none ]

  unfoldable pub as_str : Value → Option String
  as_str v = elim (view v) [ string s ↦ some s | _ ↦ none ]

  unfoldable pub as_bool : Value → Option Bool
  as_bool v = elim (view v) [ bool b ↦ some b | _ ↦ none ]

  unfoldable pub as_u64 : Value → Option ℕ
  as_u64 v = elim (view v) [ number n ↦ number_u64 n | _ ↦ none ]

  unfoldable pub as_i64 : Value → Option ℤ
  as_i64 v = elim (view v) [ number n ↦ number_i64 n | _ ↦ none ]

  unfoldable pub is_null : Value → Bool
  is_null v = elim (view v) [ null ↦ true | _ ↦ false ]

  unfoldable pub is_object : Value → Bool
  is_object v = elim (view v) [ object m ↦ true | _ ↦ false ]

  -- `Value::get` with a key: no value is found in what is no object.
  unfoldable pub get_field : Value → String → Option Value
  get_field v k = elim (view v) [ object m ↦ get m k | _ ↦ none ]

  -- `value[key]`, which reads a missing value as null.
  unfoldable pub index : Value → String → Value
  unfolding get_field
  index v k = unwrap_or (get_field v k) (make null)

  -- `Value::pointer` with the path `/a/b`, whose parts are no array positions.
  unfoldable pub pointer : Value → String → String → Option Value
  unfolding get_field
  pointer v a b = and_then (get_field v a) (λ w. get_field w b)

  -- `value[key] = new`: null becomes an object, and `none` is the panic on any other value.
  unfoldable pub set_index : Value → String → Value → Option Value
  set_index v k new = elim (view v) [
    | object m ↦ some (make (object (insert m k new)))
    | null ↦ some (make (object (insert empty k new)))
    | _ ↦ none
  ]

  -- `json!({...})`
  abbrev pub fields_of : List (String × Value) → Fields → Fields
  fields_of [] m = m
  fields_of ((k, v) ∷ rest) m = fields_of rest (insert m k v)

  unfoldable pub json_object : List (String × Value) → Value
  json_object kvs = make (object (fields_of kvs empty))

  unfoldable pub json_string : String → Value
  json_string s = make (string s)

  -- An `Option<String>` in `json!`: none is null.
  unfoldable pub json_option : Option String → Value
  unfolding json_string
  json_option o = elim o [ none ↦ make null | some s ↦ json_string s ]
