-- ===== src/Sessions/Eviction.antt =====
-- The eviction loop of `ready` (src/http_api/responses_session.rs).
use codex_api.Common.{
  ℕ, zero, suc, ◌≤◌, ◌<◌, ◌≡◌, ◌≢◌, refl, sym, subst, ◌⊎◌, inl, inr, true, false, none, some, [],
  ◌∷◌, length, Bool-cases, Option-cases, arith,
}
use codex_api.Sessions.Key.{SessionKey, key_eq_iff}
use codex_api.Sessions.Entries.{Entry, Entries, lookup, store, remove, lookup-store, lookup-remove}
use codex_api.Sessions.Cache.{idle_count, oldest, within_budget, evict}

-- A map holds each key once.
abbrev pub Distinct : Entries → Type 0
Distinct [] = Unit
Distinct ((k, e) ∷ es) = (lookup k es ≡ none) × Distinct es

pub Distinct-store :
    (k : SessionKey) (e : Entry) (es : Entries) → Distinct es → Distinct (store k e es)
unfolding store lookup
Distinct-store k e [] d = (refl, tt)
Distinct-store k e ((j, f) ∷ es) d =
    ground (arith, key_eq_iff j k, key_eq_iff k j, Distinct-store k e es d.1, lookup-store k j e es)

pub Distinct-remove : (k : SessionKey) (es : Entries) → Distinct es → Distinct (remove k es)
unfolding remove
Distinct-remove k [] d = tt
Distinct-remove k ((j, f) ∷ es) d = ground (arith, Distinct-remove k es d.1, lookup-remove k j es)

length-remove_le : (k : SessionKey) (es : Entries) → length (remove k es) ≤ length es
unfolding remove
length-remove_le k [] = omega arith
length-remove_le k ((j, f) ∷ es) = ground (arith, length-remove_le k es)

length-remove-oldest :
    (k : SessionKey) (e : Entry) (es : Entries)
    → oldest es ≡ some (k, e)
    → length (remove k es) < length es
unfolding remove oldest
length-remove-oldest k e [] h = cc
length-remove-oldest k e ((j, f) ∷ es) h =
    ground (arith, length-remove_le k es, key_eq_iff j k, length-remove-oldest k e es)

oldest_idle :
    (k : SessionKey) (e : Entry) (es : Entries)
    → Distinct es
    → oldest es ≡ some (k, e)
    → (lookup k es ≡ some e) × (e.busy ≡ false)
unfolding oldest lookup
oldest_idle k e [] d h = cc
oldest_idle k e ((j, f) ∷ es) d h = ground (arith, key_eq_iff j k, oldest_idle k e es d.1)

oldest-none : (es : Entries) → oldest es ≡ none → idle_count es ≡ 0
unfolding oldest idle_count
oldest-none [] h = refl
oldest-none ((j, f) ∷ es) h = ground (arith, oldest-none es)

oldest-some :
    (j : SessionKey) (f : Entry) (es : Entries)
    → lookup j es ≡ some f
    → f.busy ≡ false
    → oldest es ≢ none
unfolding oldest lookup
oldest-some j f [] h b = cc
oldest-some j f ((i, g) ∷ es) h b = λ n. ground (arith, oldest-some j f es)

-- The loop removes the least recently used of the idle entries.
oldest_least :
    (k j : SessionKey) (e f : Entry) (es : Entries)
    → oldest es ≡ some (k, e)
    → lookup j es ≡ some f
    → f.busy ≡ false
    → e.last_used ≤ f.last_used
unfolding oldest lookup
oldest_least k j e f [] h l b = cc
oldest_least k j e f ((i, g) ∷ es) h l b = elim (Option-cases (oldest es)) [
  | inl p ↦ ground (arith, oldest_least k j e f es, oldest-some j f es)
  | inr ((m, x), p) ↦ ground (arith, oldest_least m j x f es p, oldest-some j f es)
]

-- A round stops, or removes the oldest idle entry.
evict_round :
    (fuel : ℕ) (es : Entries)
    → ((evict (suc fuel) es ≡ es) × ((within_budget es ≡ true) ⊎ (oldest es ≡ none)))
      ⊎ ((x : SessionKey × Entry) × ((oldest es ≡ some x)
            × (evict (suc fuel) es ≡ evict fuel (remove x.0 es))))
unfolding evict
evict_round fuel es = elim (Bool-cases (within_budget es)) [
  | inl p ↦ inl (rw (p, evict) refl, inl p)
  | inr p ↦ elim (Option-cases (oldest es)) [
    | inl q ↦ inl (rw (p, q, evict) refl, inr q)
    | inr (x, q) ↦ inr (x, (q, rw (p, q, evict) refl))
  ]
]

-- Enough fuel.
pub evict_stops :
    (fuel : ℕ) (es : Entries)
    → length es ≤ fuel
    → (within_budget (evict fuel es) ≡ true) ⊎ (idle_count (evict fuel es) ≡ 0)
unfolding evict idle_count
evict_stops zero [] le = inr refl
evict_stops zero (x ∷ es) le = ground arith
evict_stops (suc fuel) es le = elim (evict_round fuel es) [
  | inl (p, inl q) ↦ inl (rw (p, q) refl)
  | inl (p, inr q) ↦ inr (rw (p) (oldest-none es q))
  | inr ((k, e), (q, p)) ↦
      rw (p) (evict_stops fuel (remove k es) (omega (arith, length-remove-oldest k e es q)))
]

pub evict-Distinct : (fuel : ℕ) (es : Entries) → Distinct es → Distinct (evict fuel es)
unfolding evict
evict-Distinct zero es d = d
evict-Distinct (suc fuel) es d = elim (evict_round fuel es) [
  | inl (p, q) ↦ subst Distinct (sym p) d
  | inr ((k, e), (q, p)) ↦
      subst Distinct (sym p) (evict-Distinct fuel (remove k es) (Distinct-remove k es d))
]

pub evict_subset :
    (fuel : ℕ) (j : SessionKey) (f : Entry) (es : Entries)
    → lookup j (evict fuel es) ≡ some f
    → lookup j es ≡ some f
unfolding evict
evict_subset zero j f es l = l
evict_subset (suc fuel) j f es l = elim (evict_round fuel es) [
  | inl (p, q) ↦ cc
  | inr ((k, e), (q, p)) ↦
      ground (arith, evict_subset fuel j f (remove k es), lookup-remove k j es, p)
]

pub evict_busy :
    (fuel : ℕ) (j : SessionKey) (f : Entry) (es : Entries)
    → Distinct es
    → lookup j es ≡ some f
    → f.busy ≡ true
    → lookup j (evict fuel es) ≡ some f
unfolding evict
evict_busy zero j f es d l b = l
evict_busy (suc fuel) j f es d l b = elim (evict_round fuel es) [
  | inl (p, q) ↦ cc
  | inr ((k, e), (q, p)) ↦ ground (
    arith,
    p,
    key_eq_iff k j,
    lookup-remove k j es,
    oldest_idle k e es d q,
    evict_busy fuel j f (remove k es) (Distinct-remove k es d),
  )
]

-- An idle entry that leaves was used no later than any idle entry that stays.
pub evict_least :
    (fuel : ℕ) (i j : SessionKey) (g f : Entry) (es : Entries)
    → Distinct es
    → lookup i es ≡ some g
    → lookup i (evict fuel es) ≡ none
    → lookup j (evict fuel es) ≡ some f
    → f.busy ≡ false
    → g.last_used ≤ f.last_used
unfolding evict
evict_least zero i j g f es d l m n b = cc
evict_least (suc fuel) i j g f es d l m n b = elim (evict_round fuel es) [
  | inl (p, q) ↦ cc
  | inr ((k, e), (q, p)) ↦ ground (
    arith,
    p,
    key_eq_iff k i,
    lookup-remove k i es,
    lookup-remove k j es,
    evict_subset fuel j f (remove k es),
    oldest_idle k e es d q,
    oldest_least k j e f es q,
    evict_least fuel i j g f (remove k es) (Distinct-remove k es d),
  )
]
