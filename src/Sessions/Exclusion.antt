-- ===== src/Sessions/Exclusion.antt =====
-- src/http_api/responses_session.rs: one turn of a session at a time.
use codex_api.Common.{
  ℕ, ◌≤◌, ◌≡◌, refl, inl, inr, Bool, true, false, not, ◌&&◌, Option, none, some, List, [], ◌∷◌,
  is_none, is_empty, leb, leb→le, ltb, length, nat_eq, nat_eq_iff, if◌then◌else◌, Bool-cases,
  Option-cases, arith,
}
use codex_api.Sessions.Key.{SessionKey, key_eq, key_eq_iff}
use codex_api.Sessions.Entries.{Entry, Entries, lookup, remove, lookup-store, lookup-remove}
use codex_api.Sessions.Cache.{
  claim, open_session, new_entry, reuse, ready, release, owned_by, remove_idle, leave, evict,
  max_context_bytes,
}
use codex_api.Sessions.Eviction.{Distinct, evict_subset, evict_busy}
use codex_api.Sessions.System.{
  Turns, System, turns_of, drop_turn, has_id, drop_id, begin_turn, end_turn, expire, stop, Reach,
  started, streamed, finished, expired, stopped,
}
use codex_api.Sessions.Unique.{Distinct-release, Reach-Distinct}

-- The actor whose turn the entry records.
unfoldable pub holder : Option Entry → List ℕ
holder none = []
holder (some e) = if e.busy then e.id ∷ [] else []

unfoldable pub is_kept : Option Entry → Bool
is_kept none = true
is_kept (some e) = nat_eq e.sender e.id && leb e.bytes max_context_bytes

-- What the cache records of a session, against the turns that hold it.
abbrev pub Holds : Option Entry → List ℕ → Type 0
Holds o ts = (ts ≡ holder o) × (is_kept o ≡ true)

turns_of-drop_turn :
    (k j : SessionKey) (id : ℕ) (ts : Turns)
    → turns_of j (drop_turn k id ts)
      ≡ (if key_eq k j then drop_id id (turns_of j ts) else turns_of j ts)
unfolding turns_of drop_turn drop_id
turns_of-drop_turn k j id [] = ground arith
turns_of-drop_turn k j id ((i, m) ∷ ts) = ground (
  arith,
  key_eq_iff i k,
  key_eq_iff i j,
  key_eq_iff k j,
  nat_eq_iff m id,
  turns_of-drop_turn k j id ts,
)

-- `remove` of an entry of this actor, and of none other.
Holds-remove :
    (k j : SessionKey) (id : ℕ) (es : Entries) (ts : Turns)
    → owned_by id (lookup k es) ≡ true
    → Holds (lookup j es) (turns_of j ts)
    → Holds (lookup j (remove k es)) (turns_of j (drop_turn k id ts))
unfolding drop_id holder is_kept
Holds-remove k j id es ts own h =
    rw (lookup-remove k j es, turns_of-drop_turn k j id ts) (ground (arith, key_eq_iff k j))

Holds-evict :
    (fuel : ℕ) (j : SessionKey) (es : Entries) (ts : List ℕ)
    → Distinct es
    → Holds (lookup j es) ts
    → Holds (lookup j (evict fuel es)) ts
unfolding holder is_kept
Holds-evict fuel j es ts d h = elim (Option-cases (lookup j (evict fuel es))) [
  | inl p ↦ elim (Option-cases (lookup j es)) [
    | inl q ↦ (cc, cc)
    | inr (e, q) ↦ ground (arith, p, q, evict_busy fuel j e es d q)
  ]
  | inr (f, p) ↦ (cc (evict_subset fuel j f es p), cc (evict_subset fuel j f es p))
]

Holds-claim :
    (key : Option SessionKey) (j : SessionKey) (now : ℕ) (s : System)
    → Holds (lookup j s.cache.entries) (turns_of j s.turns)
    → Holds
        (lookup j (begin_turn key now s).cache.entries)
        (turns_of j (begin_turn key now s).turns)
unfolding begin_turn claim open_session reuse new_entry turns_of holder is_kept
Holds-claim none j now s h = h
Holds-claim (some k) j now s h = elim (Option-cases (lookup k s.cache.entries)) [
  | inl p ↦
      ground
        (arith, p, key_eq_iff k j, lookup-store k j (new_entry s.cache.next_id now) s.cache.entries)
  | inr (e, p) ↦
      ground (arith, p, key_eq_iff k j, lookup-store k j (record e { busy = true }) s.cache.entries)
]

Holds-release :
    (k j : SessionKey) (id bytes now : ℕ) (es : Entries) (ts : Turns)
    → has_id id (turns_of k ts) ≡ true
    → Holds (lookup k es) (turns_of k ts)
    → Holds (lookup j es) (turns_of j ts)
    → bytes ≤ max_context_bytes
    → Holds (lookup j (release k id bytes now es)) (turns_of j (drop_turn k id ts))
unfolding release drop_id holder is_kept has_id
Holds-release k j id bytes now es ts a hk h b =
    rw (turns_of-drop_turn k j id ts) (elim (Option-cases (lookup k es)) [
      | inl p ↦ ground (arith, p, key_eq_iff k j)
      | inr (e, p) ↦ ground (
        arith,
        p,
        key_eq_iff k j,
        nat_eq_iff e.id id,
        leb→le bytes max_context_bytes,
        lookup-store k j (record e { busy = false; last_used = now; bytes = bytes }) es,
      )
    ])

Holds-ready :
    (k j : SessionKey) (id bytes now : ℕ) (s : System)
    → Distinct s.cache.entries
    → has_id id (turns_of k s.turns) ≡ true
    → Holds (lookup k s.cache.entries) (turns_of k s.turns)
    → Holds (lookup j s.cache.entries) (turns_of j s.turns)
    → Holds (lookup j (ready k id bytes now s.cache).entries) (turns_of j (drop_turn k id s.turns))
unfolding ready has_id holder
Holds-ready k j id bytes now s d a hk h =
    let es = release k id bytes now s.cache.entries in
    elim (Bool-cases (ltb max_context_bytes bytes && owned_by id (lookup k s.cache.entries))) [
      | inl p ↦ rw (p) (Holds-remove k j id s.cache.entries s.turns (ground (arith, p)) h)
      | inr p ↦ rw (p) (
          Holds-evict (length es) j es (turns_of j (drop_turn k id s.turns))
            (Distinct-release k id bytes now s.cache.entries d)
            (Holds-release k j id bytes now s.cache.entries s.turns a hk h ground
              (arith, p, nat_eq_iff id, leb→le bytes max_context_bytes)))
    ]

Holds-expire :
    (k j : SessionKey) (id : ℕ) (s : System)
    → Holds (lookup j s.cache.entries) (turns_of j s.turns)
    → Holds (lookup j (remove_idle k id s.cache).1.entries) (turns_of j s.turns)
unfolding remove_idle holder is_kept
Holds-expire k j id s h = elim (Option-cases (lookup k s.cache.entries)) [
  | inl p ↦ rw (p, remove_idle) h
  | inr (e, p) ↦
      rw (p, remove_idle) (ground (arith, p, h, key_eq_iff k j, lookup-remove k j s.cache.entries))
]

Holds-stop :
    (k j : SessionKey) (id : ℕ) (s : System)
    → Holds (lookup k s.cache.entries) (turns_of k s.turns)
    → Holds (lookup j s.cache.entries) (turns_of j s.turns)
    → Holds (lookup j (leave k id s.cache).entries) (turns_of j (drop_turn k id s.turns))
unfolding leave holder is_kept drop_id
Holds-stop k j id s hk h = elim (Bool-cases (owned_by id (lookup k s.cache.entries))) [
  | inl p ↦ rw (p) (Holds-remove k j id s.cache.entries s.turns p h)
  | inr p ↦ rw (p, turns_of-drop_turn k j id s.turns) ground (arith, p, h, hk, key_eq_iff k j)
]

-- In every reachable state a session is marked as busy exactly while a turn holds it, and then one
-- turn does, whose actor the entry names.
pub Reach-Holds :
    {s : System}
    → Reach s
    → (j : SessionKey) → Holds (lookup j s.cache.entries) (turns_of j s.turns)
unfolding begin_turn end_turn expire stop holder is_kept lookup turns_of
Reach-Holds started j = (refl, refl)
Reach-Holds (streamed key now s r) j = Holds-claim key j now s (Reach-Holds r j)
Reach-Holds (finished k id bytes now s r a) j =
    Holds-ready k j id bytes now s (Reach-Distinct r) a (Reach-Holds r k) (Reach-Holds r j)
Reach-Holds (expired k id s r) j = Holds-expire k j id s (Reach-Holds r j)
Reach-Holds (stopped k id s r) j = Holds-stop k j id s (Reach-Holds r k) (Reach-Holds r j)

-- A request is refused as busy exactly while a turn of its session runs.
pub claim_refuses :
    {s : System}
    → Reach s
    → (k : SessionKey) (now : ℕ)
    → is_none (claim (some k) now s.cache).target ≡ not (is_empty (turns_of k s.turns))
unfolding claim open_session reuse holder
claim_refuses {s} r k now = elim (Option-cases (lookup k s.cache.entries)) [
  | inl p ↦ ground (arith, p, Reach-Holds r k)
  | inr (e, p) ↦ ground (arith, p, Reach-Holds r k)
]

-- In every reachable state at most one turn of a session runs.
pub turns_of_one : {s : System} → Reach s → (k : SessionKey) → length (turns_of k s.turns) ≤ 1
unfolding holder
turns_of_one {s} r k = ground (arith, Reach-Holds r k)
