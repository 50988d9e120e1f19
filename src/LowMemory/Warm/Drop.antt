-- ===== src/LowMemory/Warm/Drop.antt =====
-- dropOnePoolSandbox, api/pressure.go: what it takes from the warm pool, and what it leaves.
use spoond.Base.{
  ◌≡◌, refl, inl, inr, false, Option, none, some, List, [], ◌∷◌, ◌++◌, sym, ◌∙◌, ap, arith, All,
  Any, All-mono, Any-mono, if_true, if_false, Bool-cases, clash, if◌then◌else◌, ◌+◌, length,
  length-append,
}
use spoond.Base.Text.{Text, text_eq, text_eq_refl}
use spoond.Base.Int.{ℤ, pos}
use spoond.LowMemory.Warm.{
  WarmPool, Dropped, ids_of, mib_entry, delete_key, newest, but_newest, pick_largest, put_back,
  drop_one_pool_sandbox,
}
use spoond.LowMemory.Warm.Largest.{
  newest-none, newest-but, IsNamed, Under, StandsAt, pick_largest-StandsAt, pick_largest-none,
  pick_largest-Under,
}
use spoond.LowMemory.Warm.Keys.{
  IsMap, IsStocked, count, ids_of_at, delete_key-ids_of, set_ids-ids_of, delete_key-mib_entry,
  delete_key-All, set_ids-All, delete_key-IsMap, set_ids-IsMap, delete_key-count, set_ids-count,
}

-- What a drop does: the sandbox is the newest of its image and no image's newest is larger, it goes
-- with its entry, and nothing else changes.
pub record IsDropOf (s : WarmPool) (d : Dropped) : Type 0 where
  pub newest_goes : ids_of d.image s.pool ≡ ids_of d.image d.left.pool ++ d.id ∷ []
  pub others_stay :
      (img : Text) → text_eq d.image img ≡ false → ids_of img d.left.pool ≡ ids_of img s.pool
  pub no_larger : All (λ r. Under s.pool_mib d.id (newest r.1)) s.pool
  pub freed : d.freed_mib ≡ mib_entry d.id s.pool_mib
  pub entries :
      (id : Text)
      → mib_entry id d.left.pool_mib ≡ (if text_eq d.id id then pos 0 else mib_entry id s.pool_mib)
  pub one_fewer : count d.left.pool + 1 ≡ count s.pool
  pub still_stocked : IsStocked d.left

abbrev pub DropVerdict : WarmPool → Option Dropped → Type 0
DropVerdict s none = All (λ r. r.1 ≡ []) s.pool
DropVerdict s (some d) = IsDropOf s d

put_back-ids_of :
    (img other : Text) (kept : List Text) (rows : List (Text × List Text))
    → Any (λ r. r.0 ≡ img) rows
    → ids_of other (put_back img kept rows)
      ≡ (if text_eq img other then kept else ids_of other rows)
put_back-ids_of img other [] rows h = delete_key-ids_of img other rows
put_back-ids_of img other (x ∷ xs) rows h = set_ids-ids_of img other (x ∷ xs) rows h

put_back-count :
    (img : Text) (kept : List Text) (rows : List (Text × List Text))
    → IsMap rows
    → Any (λ r. r.0 ≡ img) rows
    → count (put_back img kept rows) + length (ids_of img rows) ≡ count rows + length kept
put_back-count img [] rows m h = omega (arith, delete_key-count img rows m)
put_back-count img (x ∷ xs) rows m h = set_ids-count img (x ∷ xs) rows h

named_at :
    (img : Text) (rows : List (Text × List Text))
    → IsNamed rows
    → All (λ id. text_eq id [] ≡ false) (ids_of img rows)
unfolding ids_of
named_at img [] n = tt
named_at img (r ∷ rows) n =
    let k = named_at img rows n.1 in
    elim (Bool-cases (text_eq r.0 img)) [ inl e ↦ rw e n.0 | inr e ↦ rw e k ]

but_newest-All {κ} : (P : Text → Type κ) (ids : List Text) → All P ids → All P (but_newest ids)
unfolding but_newest
but_newest-All P [] a = tt
but_newest-All P (x ∷ []) a = tt
but_newest-All P (x ∷ y ∷ xs) a = (a.0, but_newest-All P (y ∷ xs) a.1)

put_back-IsStocked :
    (img : Text) (kept : List Text) (s : WarmPool) (es : List (Text × ℤ))
    → IsStocked s
    → All (λ id. text_eq id [] ≡ false) kept
    → IsStocked (record { pool = put_back img kept s.pool; pool_mib = es })
put_back-IsStocked img [] s es w k = record {
  images = delete_key-IsMap img s.pool w.images;
  named = delete_key-All _ img s.pool w.named;
}
put_back-IsStocked img (x ∷ xs) s es w k = record {
  images = set_ids-IsMap img (x ∷ xs) s.pool w.images;
  named =
      set_ids-All (λ r. All (λ id. text_eq id [] ≡ false) r.1) img (x ∷ xs) s.pool (λ r q. k)
        w.named;
}

module _ (s : WarmPool) (w : IsStocked s) where
  drop_picked-IsDropOf :
      (p : Text × Text)
      → Any (StandsAt p) s.pool
      → All (λ r. Under s.pool_mib p.1 (newest r.1)) s.pool
      → IsDropOf s (record {
        image = p.0;
        id = p.1;
        freed_mib = mib_entry p.1 s.pool_mib;
        left = record {
          pool = put_back p.0 (but_newest (ids_of p.0 s.pool)) s.pool;
          pool_mib = delete_key p.1 s.pool_mib;
        };
      })
  drop_picked-IsDropOf p at under =
      let here = Any-mono (StandsAt p) (λ r. r.0 ≡ p.0) s.pool (λ r q. q.0) at in
      let kept = but_newest (ids_of p.0 s.pool) in
      let split = newest-but (ids_of p.0 s.pool) p.1 (ids_of_at s.pool p w.images at) in
      let back = put_back-ids_of p.0 p.0 kept s.pool here in
      record {
        newest_goes =
            split
            ∙ ap (λ x. x ++ p.1 ∷ [])
                (sym
                  (back ∙ if_true (text_eq p.0 p.0) kept (ids_of p.0 s.pool) (text_eq_refl p.0)));
        others_stay = λ img ne.
            put_back-ids_of p.0 img kept s.pool here
            ∙ if_false (text_eq p.0 img) kept (ids_of img s.pool) ne;
        no_larger = under;
        freed = refl;
        entries = λ id. delete_key-mib_entry p.1 id s.pool_mib;
        one_fewer = omega (
          arith,
          put_back-count p.0 kept s.pool w.images here,
          ap length split,
          length-append kept (p.1 ∷ []),
        );
        still_stocked =
            put_back-IsStocked p.0 kept s _ w
              (but_newest-All _ (ids_of p.0 s.pool) (named_at p.0 s.pool w.named));
      }

  -- A drop takes one of the images' newest sandboxes, of which none is larger, with its entry, and
  -- changes nothing else; it takes none only from an empty pool.
  pub drop_one_pool_sandbox_lem : DropVerdict s (drop_one_pool_sandbox s)
  unfolding drop_one_pool_sandbox
  drop_one_pool_sandbox_lem =
      let p = pick_largest s.pool_mib s.pool ([], []) in
      elim (Bool-cases (text_eq p.1 [])) [
        | inl e ↦ rw e (
            All-mono _ _ s.pool (λ r q. newest-none r.1 q)
              (pick_largest-none s.pool_mib s.pool ([], []) w.named e).1)
        | inr e ↦ rw e (
            drop_picked-IsDropOf p
              (elim (pick_largest-StandsAt s.pool_mib s.pool ([], [])) [
                | inl k ↦ absurd (clash (rw k (text_eq_refl [])) e)
                | inr k ↦ k
              ])
              (pick_largest-Under s.pool_mib s.pool ([], []) w.named).0)
      ]
