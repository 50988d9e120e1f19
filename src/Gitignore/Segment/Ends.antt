-- ===== src/Gitignore/Segment/Ends.antt =====
-- The loop of segGlob, internal/gitignore/match.go, ends on every pattern and every name.
use spoond.Base.{
  ℕ, zero, suc, ◌+◌, ◌*◌, ◌≤◌, ◌<◌, ◌≡◌, refl, Bool, true, false, Option, none, some, [], ◌∷◌, ◌==◌,
  length, arith, Option-cases, inl, inr,
}
use spoond.Base.Text.{Text}
use spoond.Gitignore.Segment.{one, Back, Round, retry, turn, only_stars, glob_loop}
use spoond.Gitignore.Segment.Glob.{one_shorter}

abbrev pub Answers : Option Bool → Type 0
Answers r = (b : Bool) × (r ≡ some b)

-- `k` bounds the patterns that are met.
module _ (k : ℕ) where
  abbrev Bounded : ℕ → Text → Back → Type 0
  Bounded m s none = Unit
  Bounded m s (some (bp, bs)) = (length s ≤ length bs) × (length bs ≤ m) × (length bp < k)

  record Paid (f m : ℕ) (p s : Text) (back : Back) : Type 0 where
    bounded : Bounded m s back
    name_left : length s ≤ m
    pattern_left : length p < k
    fuel_left : m * k + length p < f

  abbrev Onward : ℕ → Round → Type 0
  Onward f next = (m : ℕ) (p s : Text) (back : Back) → Paid f m p s back → Answers (next p s back)

  retry-Answers :
      (f m c : ℕ) (p s : Text) (back : Back) (next : Round)
      → Onward f next
      → Paid (suc f) m p (c ∷ s) back
      → Answers (retry back next)
  retry-Answers f m c p s none next ih i = (false, refl)
  retry-Answers f m c p s (some (bp, [])) next ih i = (false, refl)
  retry-Answers f zero c p s (some (bp, b ∷ bs)) next ih i =
      let (h, t, l) = i.bounded in absurd (omega arith)
  retry-Answers f (suc m) c p s (some (bp, b ∷ bs)) next ih i =
      let (h, t, l) = i.bounded in
      let e = i.fuel_left in
      ih m bp bs (some (bp, bs)) (record {
        bounded = (omega arith, omega arith, l);
        name_left = omega arith;
        pattern_left = l;
        fuel_left = omega arith;
      })

  shrunk : (f m c : ℕ) (q s : Text) (back : Back) → Bounded m (c ∷ s) back → Bounded m s back
  shrunk f m c q s none h = tt
  shrunk f m c q s (some (bp, bs)) (h, t, l) = (omega arith, t, l)

  turn-Answers :
      (f m x c : ℕ) (p s : Text) (back : Back) (next : Round)
      → Onward f next
      → Paid (suc f) m (x ∷ p) (c ∷ s) back
      → (b : Bool) → Answers (turn b x p c s back next)
  turn-Answers f m x c p s back next ih i true =
      let n = i.name_left in
      let h = i.pattern_left in
      let e = i.fuel_left in
      ih m p (c ∷ s) (some (p, c ∷ s)) (record {
        bounded = (omega arith, n, omega arith);
        name_left = n;
        pattern_left = omega arith;
        fuel_left = omega arith;
      })
  turn-Answers f m x c p s back next ih i false = elim (Option-cases (one x p c)) [
    | inl e ↦ rw e (retry-Answers f m c (x ∷ p) s back next ih i)
    | inr (q, e) ↦
        let l = one_shorter x c p q e in
        let n = i.name_left in
        let h = i.pattern_left in
        let t = i.fuel_left in
        rw e (
          ih m q s back (record {
            bounded = shrunk f m c q s back i.bounded;
            name_left = omega arith;
            pattern_left = omega arith;
            fuel_left = omega arith;
          }))
  ]

  glob_loop-Answers : (f : ℕ) → Onward f (glob_loop f)
  unfolding glob_loop
  glob_loop-Answers zero m p s back i = let e = i.fuel_left in absurd (omega arith)
  glob_loop-Answers (suc f) m [] [] back i = (only_stars [], refl)
  glob_loop-Answers (suc f) m (x ∷ p) [] back i = (only_stars (x ∷ p), refl)
  glob_loop-Answers (suc f) m [] (c ∷ s) back i =
      retry-Answers f m c [] s back (glob_loop f) (glob_loop-Answers f) i
  glob_loop-Answers (suc f) m (x ∷ p) (c ∷ s) back i =
      turn-Answers f m x c p s back (glob_loop f) (glob_loop-Answers f) i (x == b'*')

-- For every pattern segment and every name the loop answers within the product of their lengths,
-- each with 1 added.
pub glob_loop_returns :
    (p s : Text) → Answers (glob_loop ((length s + 1) * (length p + 1)) p s none)
glob_loop_returns p s =
    glob_loop-Answers (length p + 1) ((length s + 1) * (length p + 1)) (length s) p s none (record {
      bounded = tt;
      name_left = omega arith;
      pattern_left = omega arith;
      fuel_left = omega arith;
    })
