-- ===== src/Sessions/System.antt =====
-- src/http_api/responses_session.rs: the cache together with the turns that hold a session, as the
-- requests, the actors and the timers interleave.
use codex_api.Common.{
  ℕ, ◌≡◌, Bool, true, false, ◌&&◌, Option, none, some, List, [], ◌∷◌, nat_eq, if◌then◌else◌,
}
use codex_api.Sessions.Key.{SessionKey, key_eq}
use codex_api.Sessions.Cache.{Cache, default, claim, ready, remove_idle, leave}

-- A turn is the session and the actor that a request has claimed.
abbrev pub Turns : Type 0
Turns = List (SessionKey × ℕ)

pub record System : Type 0 where
  pub cache : Cache
  pub turns : Turns

unfoldable pub turns_of : SessionKey → Turns → List ℕ
turns_of k [] = []
turns_of k ((j, id) ∷ ts) = let rest = turns_of k ts in if key_eq j k then id ∷ rest else rest

unfoldable pub drop_turn : SessionKey → ℕ → Turns → Turns
drop_turn k id [] = []
drop_turn k id ((j, m) ∷ ts) =
    let rest = drop_turn k id ts in if key_eq j k && nat_eq m id then rest else (j, m) ∷ rest

unfoldable pub has_id : ℕ → List ℕ → Bool
has_id id [] = false
has_id id (m ∷ ms) = let rest = has_id id ms in if nat_eq m id then true else rest

unfoldable pub drop_id : ℕ → List ℕ → List ℕ
drop_id id [] = []
drop_id id (m ∷ ms) = let rest = drop_id id ms in if nat_eq m id then rest else m ∷ rest

unfoldable pub begin_turn : Option SessionKey → ℕ → System → System
begin_turn key now s =
    let c = claim key now s.cache in
    record {
      cache = c.cache;
      turns = elim key [
        | none ↦ s.turns
        | some k ↦ elim c.target [ none ↦ s.turns | some id ↦ (k, id) ∷ s.turns ]
      ];
    }

unfoldable pub end_turn : SessionKey → ℕ → ℕ → ℕ → System → System
end_turn k id bytes now s = record {
  cache = ready k id bytes now s.cache;
  turns = drop_turn k id s.turns;
}

unfoldable pub expire : SessionKey → ℕ → System → System
expire k id s = record s { cache = (remove_idle k id s.cache).1 }

unfoldable pub stop : SessionKey → ℕ → System → System
stop k id s = record { cache = leave k id s.cache; turns = drop_turn k id s.turns }

pub data Reach : System → Type 0 where
  started : Reach (record { cache = default; turns = [] })
  streamed :
      (key : Option SessionKey) (now : ℕ) (s : System) → Reach s → Reach (begin_turn key now s)
  finished :
      (k : SessionKey) (id bytes now : ℕ) (s : System)
      → Reach s
      → has_id id (turns_of k s.turns) ≡ true
      → Reach (end_turn k id bytes now s)
  expired : (k : SessionKey) (id : ℕ) (s : System) → Reach s → Reach (expire k id s)
  stopped : (k : SessionKey) (id : ℕ) (s : System) → Reach s → Reach (stop k id s)
