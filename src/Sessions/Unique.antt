-- ===== src/Sessions/Unique.antt =====
-- src/http_api/responses_session.rs: the cache holds each session once.
use codex_api.Common.{
  ℕ, inl, inr, true, false, ◌&&◌, Option, none, some, ltb, length, nat_eq, Bool-cases, Option-cases,
  arith,
}
use codex_api.Sessions.Key.{SessionKey}
use codex_api.Sessions.Entries.{Entries, lookup}
use codex_api.Sessions.Cache.{
  Cache, claim, open_session, new_entry, reuse, ready, release, owned_by, remove_idle, leave,
  max_context_bytes,
}
use codex_api.Sessions.Eviction.{Distinct, Distinct-store, Distinct-remove, evict-Distinct}
use codex_api.Sessions.System.{
  System, begin_turn, end_turn, expire, stop, Reach, started, streamed, finished, expired, stopped,
}

pub Distinct-release :
    (k : SessionKey) (id bytes now : ℕ) (es : Entries)
    → Distinct es
    → Distinct (release k id bytes now es)
unfolding release
Distinct-release k id bytes now es d = elim (Option-cases (lookup k es)) [
  | inl p ↦ rw (p, release) d
  | inr (e, p) ↦
      rw (p, release)
        (elim (Bool-cases (nat_eq e.id id)) [
          | inl q ↦
              rw (q)
                (Distinct-store k (record e { busy = false; last_used = now; bytes = bytes }) es d)
          | inr q ↦ rw (q) d
        ])
]

Distinct-claim :
    (key : Option SessionKey) (now : ℕ) (cache : Cache)
    → Distinct cache.entries
    → Distinct (claim key now cache).cache.entries
unfolding claim open_session reuse
Distinct-claim none now cache d = d
Distinct-claim (some k) now cache d = elim (Option-cases (lookup k cache.entries)) [
  | inl p ↦ rw (p, claim) (Distinct-store k (new_entry cache.next_id now) cache.entries d)
  | inr (e, p) ↦
      rw (p, claim)
        (elim (Bool-cases e.busy) [
          | inl q ↦ rw (q) d
          | inr q ↦ rw (q) (Distinct-store k (record e { busy = true }) cache.entries d)
        ])
]

Distinct-ready :
    (k : SessionKey) (id bytes now : ℕ) (cache : Cache)
    → Distinct cache.entries
    → Distinct (ready k id bytes now cache).entries
unfolding ready
Distinct-ready k id bytes now cache d =
    let es = release k id bytes now cache.entries in
    elim (Bool-cases (ltb max_context_bytes bytes && owned_by id (lookup k cache.entries))) [
      | inl p ↦ rw (p) (Distinct-remove k cache.entries d)
      | inr p ↦
          rw (p) (evict-Distinct (length es) es (Distinct-release k id bytes now cache.entries d))
    ]

Distinct-remove_idle :
    (k : SessionKey) (id : ℕ) (cache : Cache)
    → Distinct cache.entries
    → Distinct (remove_idle k id cache).1.entries
unfolding remove_idle
Distinct-remove_idle k id cache d = elim (Option-cases (lookup k cache.entries)) [
  | inl p ↦ rw (p, remove_idle) d
  | inr (e, p) ↦ rw (p, remove_idle) (ground (arith, d, Distinct-remove k cache.entries d))
]

Distinct-leave :
    (k : SessionKey) (id : ℕ) (cache : Cache)
    → Distinct cache.entries
    → Distinct (leave k id cache).entries
unfolding leave
Distinct-leave k id cache d = ground (arith, d, Distinct-remove k cache.entries d)

pub Reach-Distinct : {s : System} → Reach s → Distinct s.cache.entries
unfolding begin_turn end_turn expire stop
Reach-Distinct started = tt
Reach-Distinct (streamed key now s r) = Distinct-claim key now s.cache (Reach-Distinct r)
Reach-Distinct (finished k id bytes now s r a) =
    Distinct-ready k id bytes now s.cache (Reach-Distinct r)
Reach-Distinct (expired k id s r) = Distinct-remove_idle k id s.cache (Reach-Distinct r)
Reach-Distinct (stopped k id s r) = Distinct-leave k id s.cache (Reach-Distinct r)
