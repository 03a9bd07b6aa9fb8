-- ===== src/Sessions/Budget.antt =====
-- src/http_api/responses_session.rs: what `ready` evicts.
use codex_api.Common.{ℕ, ◌≤◌, ◌≡◌, ◌⊎◌, true, false, none, some, ltb→lt, length, arith}
use codex_api.Sessions.Key.{SessionKey}
use codex_api.Sessions.Entries.{Entry, lookup}
use codex_api.Sessions.Cache.{
  Cache, within_budget, idle_count, ready, release, evict, max_context_bytes,
}
use codex_api.Sessions.Eviction.{evict_stops, evict_least}
use codex_api.Sessions.Unique.{Distinct-release, Reach-Distinct}
use codex_api.Sessions.System.{System, Reach}

ready-evict :
    (k : SessionKey) (id bytes now : ℕ) (cache : Cache)
    → bytes ≤ max_context_bytes
    → (ready k id bytes now cache).entries
      ≡ evict (length (release k id bytes now cache.entries)) (release k id bytes now cache.entries)
unfolding ready
ready-evict k id bytes now cache b = ground (arith, ltb→lt max_context_bytes bytes)

-- After a turn whose snapshot is within the limit, the cache is within its budget or no session is
-- idle: the loop ends because it is done, and never because it runs out of rounds.
pub ready-within_budget :
    (k : SessionKey) (id bytes now : ℕ) (cache : Cache)
    → bytes ≤ max_context_bytes
    → (within_budget (ready k id bytes now cache).entries ≡ true)
      ⊎ (idle_count (ready k id bytes now cache).entries ≡ 0)
ready-within_budget k id bytes now cache b =
    let es = release k id bytes now cache.entries in
    rw (ready-evict k id bytes now cache b) (evict_stops (length es) es (omega arith))

-- After a turn whose snapshot is within the budget of the cache, in any state that is reached, a
-- session that `ready` evicts was used no later than any idle session that it keeps.
pub ready_evicts_least :
    {s : System}
    → Reach s
    → (k : SessionKey) (id bytes now : ℕ) → bytes ≤ max_context_bytes
    → (i j : SessionKey) (g f : Entry) → lookup i (release k id bytes now s.cache.entries) ≡ some g
    → lookup i (ready k id bytes now s.cache).entries ≡ none
    → lookup j (ready k id bytes now s.cache).entries ≡ some f
    → f.busy ≡ false
    → g.last_used ≤ f.last_used
ready_evicts_least {s} r k id bytes now b i j g f l gone kept idle =
    let es = release k id bytes now s.cache.entries in
    let same = ready-evict k id bytes now s.cache b in
    evict_least (length es) i j g f es
      (Distinct-release k id bytes now s.cache.entries (Reach-Distinct r)) l (rw (same) at gone)
      (rw (same) at kept) idle
