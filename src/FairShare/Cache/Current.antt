-- ===== src/FairShare/Cache/Current.antt =====
-- No snapshot outlives an invalidation, api/fair_shares.go.
use spoond.Base.{
  ℕ, ◌+◌, ◌≤◌, ◌<◌, ◌≡◌, refl, Bool, true, ◌&&◌, Option, none, some, List, [], ◌∷◌, ◌==◌, arith,
  Bool-cases, inl, inr, some≢none, Option-cases, subst,
}
use spoond.Base.Float.{Float64}
use spoond.Admission.{u64_mod, u64}
use spoond.FairShare.Slices.{Snapshot}
use spoond.FairShare.Cache.{
  ShareCache, Event, invalidated, looks, computed, Shared, share_ttl, is_young, young_one, look,
  set_reader, missed, keeps, finished, share_step, cold, share_run,
}

module _ (F : Float64) where
  -- A reader began after no more invalidations than there were, and has their number as the epoch.
  abbrev IsBegun : ℕ → Option (ℕ × ℕ) → Type 0
  IsBegun count none = Unit
  IsBegun count (some (e, b)) = (e ≡ u64 b) × (b ≤ count)

  record IsCounted (x : Shared F) : Type 0 where
    pub epochs : x.cache.epoch ≡ u64 x.count
    pub readers : (k : ℕ) → IsBegun x.count (x.readers k)
    pub current : (s : Snapshot F) → x.cache.snap ≡ some s → x.since ≡ x.count
    pub known : (s : Snapshot F) → x.cache.snap ≡ some s → s.capacity_known ≡ true

  IsBegun-mono : (m : ℕ) (r : Option (ℕ × ℕ)) → IsBegun m r → IsBegun (m + 1) r
  IsBegun-mono m none h = tt
  IsBegun-mono m (some (e, b)) h = (h.0, omega arith)

  set_reader-IsBegun :
      (m k : ℕ) (v : Option (ℕ × ℕ)) (f : ℕ → Option (ℕ × ℕ))
      → IsBegun m v
      → ((j : ℕ) → IsBegun m (f j))
      → (j : ℕ) → IsBegun m (set_reader F k v f j)
  set_reader-IsBegun m k v f p h j = elim (Bool-cases (j == k)) [
    | inl e ↦ rw e p
    | inr e ↦ rw e (h j)
  ]

  missed-IsCounted :
      (k : ℕ) (o : Option (Snapshot F)) (x : Shared F) → IsCounted x → IsCounted (missed F k o x)
  missed-IsCounted k (some s) x c = c
  missed-IsCounted k none x c = record {
    epochs = c.epochs;
    readers = set_reader-IsBegun x.count k _ x.readers (c.epochs, omega arith) c.readers;
    current = c.current;
    known = c.known;
  }

  some_inj : {s t : Snapshot F} → some s ≡ some t → s ≡ t
  some_inj h = cc

  and_left : (a b : Bool) → (a && b) ≡ true → a ≡ true
  and_left a b h = ground arith

  and_right : (a b : Bool) → (a && b) ≡ true → b ≡ true
  and_right a b h = ground arith

  same_epoch : (m b p e : ℕ) → p ≡ u64 m → e ≡ u64 b → b ≤ m → m < u64_mod → (p == e) ≡ true → b ≡ m
  same_epoch m b p e u v l k h = ground arith

  finished-IsCounted :
      (k : ℕ) (s : Snapshot F) (r : Option (ℕ × ℕ)) (x : Shared F)
      → x.count < u64_mod
      → IsBegun x.count r
      → IsCounted x
      → IsCounted (finished F k s r x)
  unfolding spoond.FairShare.Cache.store
  finished-IsCounted k s none x l h c = c
  finished-IsCounted k s (some (e, b)) x l h c = elim (Bool-cases (keeps F e s x)) [
    | inr n ↦ rw n (record {
      epochs = c.epochs;
      readers = set_reader-IsBegun x.count k none x.readers tt c.readers;
      current = c.current;
      known = c.known;
    })
    | inl y ↦
        let same =
          same_epoch x.count b x.cache.epoch e c.epochs h.0 h.1 l
            (and_right s.capacity_known _ y) in
        rw y (record {
          epochs = c.epochs;
          readers = set_reader-IsBegun x.count k none x.readers tt c.readers;
          current = λ t u. same;
          known = λ t u.
              subst (λ (v : Snapshot F). v.capacity_known ≡ true) (some_inj u)
                (and_left s.capacity_known _ y);
        })
  ]

  share_step-IsCounted :
      (e : Event F) (x : Shared F) → x.count < u64_mod → IsCounted x → IsCounted (share_step F e x)
  unfolding share_step spoond.FairShare.Cache.invalidate_fair_shares
  share_step-IsCounted invalidated x l c = record {
    epochs = (let k = c.epochs in omega arith);
    readers = λ k. IsBegun-mono x.count (x.readers k) (c.readers k);
    current = λ s h. absurd (some≢none h refl);
    known = λ s h. absurd (some≢none h refl);
  }
  share_step-IsCounted (looks k now) x l c = missed-IsCounted k (look F now x.cache) x c
  share_step-IsCounted (computed k s) x l c =
      finished-IsCounted k s (x.readers k) x l (c.readers k) c

  share_step-count : (e : Event F) (x : Shared F) → x.count ≤ (share_step F e x).count
  unfolding share_step
  share_step-count invalidated x = omega arith
  share_step-count (looks k now) x = elim (Option-cases (look F now x.cache)) [
    | inl n ↦ rw n (omega arith)
    | inr (s, h) ↦ rw h (omega arith)
  ]
  share_step-count (computed k s) x = elim (Option-cases (x.readers k)) [
    | inl n ↦ rw n (omega arith)
    | inr (s, h) ↦ rw h (omega arith)
  ]

  share_run-IsCounted :
      (es : List (Event F)) → (share_run F es).count < u64_mod → IsCounted (share_run F es)
  unfolding share_run
  share_run-IsCounted [] l = record {
    epochs = refl;
    readers = λ k. tt;
    current = λ s h. absurd (some≢none h refl);
    known = λ s h. absurd (some≢none h refl);
  }
  share_run-IsCounted (e ∷ es) l =
      let x = share_run F es in
      let n = share_step-count e x in
      share_step-IsCounted e x (omega arith) (share_run-IsCounted es (omega arith))

  -- In every interleaving of readers and invalidations, fewer than 2^64 of them, a snapshot that a
  -- reader finds in the cache is younger than the limit, its capacity was known, and its computation
  -- began after the last invalidation.
  pub look_is_current :
      (es : List (Event F)) (now : ℕ) (s : Snapshot F)
      → (share_run F es).count < u64_mod
      → look F now (share_run F es).cache ≡ some s
      → ((share_run F es).since ≡ (share_run F es).count)
        × (s.capacity_known ≡ true)
        × (now < s.at + share_ttl)
  unfolding look
  look_is_current es now s l h =
      let c = share_run-IsCounted es l in
      let (kept, young) = young_one-inv now (share_run F es).cache.snap s h in
      (c.current s kept, c.known s kept, young)
    where
      young_one-inv :
          (now : ℕ) (o : Option (Snapshot F)) (s : Snapshot F)
          → young_one F now o ≡ some s
          → (o ≡ some s) × (now < s.at + share_ttl)
      young_one-inv now none s h = absurd (some≢none h refl)
      young_one-inv now (some t) s h = elim (Bool-cases (is_young now t.at)) [
        | inl y ↦
            let k : some t ≡ some s = rw y at h in
            (k, subst (λ (v : Snapshot F). now < v.at + share_ttl) (some_inj k) (ground arith))
        | inr n ↦ let k : none ≡ some s = rw n at h in absurd (some≢none k refl)
      ]
