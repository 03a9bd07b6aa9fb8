-- ===== src/Sessions/Entries.antt =====
-- The map from session keys to entries, which the source keeps in a `HashMap`. The list is in the
-- order in which the map iterates, which is not specified.
use codex_api.Common.{ℕ, ◌≡◌, refl, Bool, Option, none, some, List, [], ◌∷◌, if◌then◌else◌, arith}
use codex_api.Sessions.Key.{SessionKey, key_eq, key_eq_iff}

-- `sender` is the actor whose channel the entry holds; times are on one monotonic clock.
pub record Entry : Type 0 where
  pub id : ℕ
  pub sender : ℕ
  pub busy : Bool
  pub last_used : ℕ
  pub bytes : ℕ

abbrev pub Entries : Type 0
Entries = List (SessionKey × Entry)

unfoldable pub lookup : SessionKey → Entries → Option Entry
lookup k [] = none
lookup k ((j, e) ∷ es) = if key_eq j k then some e else lookup k es

-- `HashMap::insert` of a key.
unfoldable pub store : SessionKey → Entry → Entries → Entries
store k e [] = (k, e) ∷ []
store k e ((j, f) ∷ es) = if key_eq j k then (j, e) ∷ es else (j, f) ∷ store k e es

unfoldable pub remove : SessionKey → Entries → Entries
remove k [] = []
remove k ((j, e) ∷ es) = let rest = remove k es in if key_eq j k then rest else (j, e) ∷ rest

pub lookup-store :
    (k j : SessionKey) (e : Entry) (es : Entries)
    → lookup j (store k e es) ≡ (if key_eq k j then some e else lookup j es)
unfolding lookup store
lookup-store k j e [] = refl
lookup-store k j e ((i, f) ∷ es) =
    ground (arith, key_eq_iff k j, key_eq_iff i k, key_eq_iff i j, lookup-store k j e es)

pub lookup-remove :
    (k j : SessionKey) (es : Entries)
    → lookup j (remove k es) ≡ (if key_eq k j then none else lookup j es)
unfolding lookup remove
lookup-remove k j [] = ground arith
lookup-remove k j ((i, f) ∷ es) =
    ground (arith, key_eq_iff k j, key_eq_iff i k, key_eq_iff i j, lookup-remove k j es)
