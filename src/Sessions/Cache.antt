-- ===== src/Sessions/Cache.antt =====
-- src/http_api/responses_session.rs: the operations on the session cache, each of which runs under
-- the cache's lock.
use codex_api.Common.{
  ℕ, zero, suc, ◌+◌, ◌*◌, ◌%◌, ◌^◌, Bool, true, false, ◌&&◌, Option, none, some, [], ◌∷◌, leb, ltb,
  nat_eq, length, if◌then◌else◌,
}
use codex_api.Sessions.Key.{SessionKey}
use codex_api.Sessions.Entries.{Entry, Entries, lookup, store, remove}

abbrev pub max_idle_sessions : ℕ
max_idle_sessions = 64

abbrev pub max_context_bytes : ℕ
max_context_bytes = 64 * 1024 * 1024

pub record Cache : Type 0 where
  pub entries : Entries
  pub next_id : ℕ

abbrev pub default : Cache
default = record { entries = []; next_id = 0 }

-- The locked part of `stream`: the actor that takes the job, `none` if the session is busy.
pub record Claim : Type 0 where
  pub target : Option ℕ
  -- the actor that is spawned
  pub spawned : Option ℕ
  pub cache : Cache

unfoldable pub new_entry : ℕ → ℕ → Entry
new_entry id now = record { id = id; sender = id; busy = true; last_used = now; bytes = 0 }

-- A key that is absent, or no key: a new actor, which a key makes reachable. `u64` wraps.
unfoldable pub open_session : Option SessionKey → ℕ → Cache → Claim
open_session key now cache = record {
  target = some cache.next_id;
  spawned = some cache.next_id;
  cache = record {
    entries = elim key [
      | none ↦ cache.entries
      | some k ↦ store k (new_entry cache.next_id now) cache.entries
    ];
    next_id = (cache.next_id + 1) % 2 ^ 64;
  };
}

unfoldable pub reuse : SessionKey → Entry → Cache → Claim
reuse key entry cache =
    if entry.busy then record { target = none; spawned = none; cache = cache } else record {
      target = some entry.sender;
      spawned = none;
      cache = record cache { entries = store key (record entry { busy = true }) cache.entries };
    }

abbrev pub find : Option SessionKey → Entries → Option (SessionKey × Entry)
find none es = none
find (some k) es = elim (lookup k es) [ none ↦ none | some e ↦ some (k, e) ]

unfoldable pub claim : Option SessionKey → ℕ → Cache → Claim
claim key now cache = elim (find key cache.entries) [
  | none ↦ open_session key now cache
  | some (k, entry) ↦ reuse k entry cache
]

unfoldable pub idle_count : Entries → ℕ
idle_count [] = 0
idle_count ((k, e) ∷ es) = if e.busy then idle_count es else suc (idle_count es)

unfoldable pub sum_bytes : Entries → ℕ
sum_bytes [] = 0
sum_bytes ((k, e) ∷ es) = e.bytes + sum_bytes es

-- `usize` sums wrap.
unfoldable pub total_bytes : Entries → ℕ
total_bytes es = sum_bytes es % 2 ^ 64

-- The first idle entry with the least `last_used`.
unfoldable pub oldest : Entries → Option (SessionKey × Entry)
oldest [] = none
oldest ((k, e) ∷ es) =
    let rest = oldest es in
    if e.busy then rest else elim rest [
      | none ↦ some (k, e)
      | some (j, f) ↦ if leb e.last_used f.last_used then some (k, e) else some (j, f)
    ]

unfoldable pub within_budget : Entries → Bool
within_budget es = leb (idle_count es) max_idle_sessions && leb (total_bytes es) max_context_bytes

-- The loop of `ready`, on fuel: each round removes an entry.
unfoldable pub evict : ℕ → Entries → Entries
evict zero es = es
evict (suc fuel) es = elim (within_budget es) [
  | true ↦ es
  | false ↦ elim (oldest es) [ none ↦ es | some (k, e) ↦ evict fuel (remove k es) ]
]

abbrev pub owned_by : ℕ → Option Entry → Bool
owned_by id none = false
owned_by id (some e) = nat_eq e.id id

unfoldable pub release : SessionKey → ℕ → ℕ → ℕ → Entries → Entries
release key id bytes now es = elim (lookup key es) [
  | none ↦ es
  | some e ↦
      if nat_eq e.id id
      then store key (record e { busy = false; last_used = now; bytes = bytes }) es
      else es
]

unfoldable pub ready : SessionKey → ℕ → ℕ → ℕ → Cache → Cache
ready key id bytes now cache =
    if ltb max_context_bytes bytes && owned_by id (lookup key cache.entries)
    then record cache { entries = remove key cache.entries }
    else record cache {
      entries = let es = release key id bytes now cache.entries in evict (length es) es;
    }

-- Whether the actor may end, and the cache.
unfoldable pub remove_idle : SessionKey → ℕ → Cache → Bool × Cache
remove_idle key id cache = elim (lookup key cache.entries) [
  | none ↦ (true, cache)
  | some e ↦
      if nat_eq e.id id
      then (if e.busy
          then (false, cache)
          else (true, record cache { entries = remove key cache.entries }))
      else (true, cache)
]

-- The end of `run`: an actor removes its own entry, and no replacement's.
unfoldable pub leave : SessionKey → ℕ → Cache → Cache
leave key id cache =
    if owned_by id (lookup key cache.entries)
    then record cache { entries = remove key cache.entries }
    else cache
