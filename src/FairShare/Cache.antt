-- ===== src/FairShare/Cache.antt =====
-- The cache of the fair-share view: fairShares and invalidateFairShares, api/fair_shares.go.
pub mod Current
use spoond.Base.{
  ℕ, zero, suc, ◌+◌, ◌-◌, ◌*◌, Bool, true, false, not, ◌&&◌, Option, none, some, List, [], ◌∷◌, ltb,
  ◌==◌, if◌then◌else◌,
}
use spoond.Base.Float.{Float64}
use spoond.Admission.{u64}
use spoond.FairShare.Slices.{Snapshot}

-- 5 s.
abbrev pub share_ttl : ℕ
share_ttl = 5_000_000_000

-- Now.Sub(at) < ttl, also for a time stamp that lies ahead.
abbrev pub is_young : ℕ → ℕ → Bool
is_young now at = ltb now (at + share_ttl)

module _ (F : Float64) where
  pub record ShareCache : Type 0 where
    pub snap : Option (Snapshot F)
    pub epoch : ℕ

  unfoldable pub invalidate_fair_shares : ShareCache → ShareCache
  invalidate_fair_shares c = record { snap = none; epoch = u64 (c.epoch + 1) }

  abbrev pub young_one : ℕ → Option (Snapshot F) → Option (Snapshot F)
  young_one now none = none
  young_one now (some s) = if is_young now s.at then some s else none

  -- The first section: the cached snapshot, if it is young.
  unfoldable pub look : ℕ → ShareCache → Option (Snapshot F)
  look now c = young_one now c.snap

  -- The last section, with the epoch of the first: an unknown capacity is not cached.
  unfoldable pub store : ℕ → Snapshot F → ShareCache → ShareCache
  store epoch s c = if s.capacity_known && c.epoch == epoch then record c { snap = some s } else c

  -- What happens to the cache, each under its lock.
  pub data Event : Type 0 where
    invalidated : Event
    -- a reader looks at a time
    looks : ℕ → ℕ → Event
    -- a reader that missed has computed a snapshot
    computed : ℕ → Snapshot F → Event

  -- Where a reader stands: `some (e, b)` computes since the epoch was `e`, after `b` invalidations.
  -- `count` is how many there were, and `since` how many when the computation of the cached snapshot
  -- began. The code does not keep `b`, `count` and `since`.
  pub record Shared : Type 0 where
    pub cache : ShareCache
    pub readers : ℕ → Option (ℕ × ℕ)
    pub count : ℕ
    pub since : ℕ

  abbrev pub set_reader : ℕ → Option (ℕ × ℕ) → (ℕ → Option (ℕ × ℕ)) → ℕ → Option (ℕ × ℕ)
  set_reader k v f j = if j == k then v else f j

  abbrev pub missed : ℕ → Option (Snapshot F) → Shared → Shared
  missed k (some s) x = x
  missed k none x = record x { readers = set_reader k (some (x.cache.epoch, x.count)) x.readers }

  abbrev pub keeps : ℕ → Snapshot F → Shared → Bool
  keeps e s x = s.capacity_known && x.cache.epoch == e

  abbrev pub finished : ℕ → Snapshot F → Option (ℕ × ℕ) → Shared → Shared
  finished k s none x = x
  finished k s (some (e, b)) x = record x {
    cache = store e s x.cache;
    readers = set_reader k none x.readers;
    since = if keeps e s x then b else x.since;
  }

  unfoldable pub share_step : Event → Shared → Shared
  unfolding invalidate_fair_shares look store
  share_step invalidated x = record x {
    cache = invalidate_fair_shares x.cache;
    count = x.count + 1;
  }
  share_step (looks k now) x = missed k (look now x.cache) x
  share_step (computed k s) x = finished k s (x.readers k) x

  abbrev pub cold : Shared
  cold = record {
    cache = record { snap = none; epoch = 0 };
    readers = λ k. none;
    count = 0;
    since = 0;
  }

  -- An interleaving, the last event first.
  unfoldable pub share_run : List Event → Shared
  unfolding share_step
  share_run [] = cold
  share_run (e ∷ es) = share_step e (share_run es)
