-- ===== src/Gitignore/Segment/Loop.antt =====
-- The loop of segGlob, internal/gitignore/match.go: it ends, and it goes back to its last star only.
use spoond.Base.{
  ℕ, zero, suc, ◌+◌, ◌*◌, ◌≤◌, ◌<◌, ◌≡◌, refl, Bool, true, false, Option, none, some, [], ◌∷◌, ◌==◌,
  length, arith, Option-cases, inl, inr, ◌↔◌, clash, some≢none, subst,
}
use spoond.Base.Text.{Text}
use spoond.Gitignore.Segment.{
  one, Back, Round, retry, turn, only_stars, glob_loop, answered, seg_glob,
}
use spoond.Gitignore.Segment.Glob.{
  Globs, byte, leave, take, IsPlain, one_shorter, byte_inv, star_takes, star_ends, star_star,
  greedy, only_stars-Globs, Globs-only_stars,
}

-- The loop has ended, and its answer to the question `G` is right.
abbrev pub Settles : Type 0 → Option Bool → Type 0
Settles G none = ⊥
Settles G (some true) = G
Settles G (some false) = ¬ G

settle : (G : Type 0) (b : Bool) → (b ≡ true → G) → (G → b ≡ true) → Settles G (some b)
settle G true f g = f refl
settle G false f g = λ x. clash (g x) refl

-- `G`: the question at the start. No pattern that is met has `k` bytes or more.
module _ (G : Type 0) (k : ℕ) where
  -- A star that the loop can go back to: `G` asks whether the star's pattern matches from there, and
  -- the present position is reached from it. `m` bounds the part of the name that is left to it.
  abbrev Behind : ℕ → Text → Text → Back → Type 0
  Behind m p s none = G → Globs p s
  Behind m p s (some (bp, bs)) =
      (G ↔ Globs (b'*' ∷ bp) bs)
      × (Globs bp bs → Globs p s)
      × IsPlain bs
      × (length s ≤ length bs)
      × (length bs ≤ m)
      × (length bp < k)

  record Search (f m : ℕ) (p s : Text) (back : Back) : Type 0 where
    enough : Globs p s → G
    needed : G → Globs (b'*' ∷ p) s
    behind : Behind m p s back
    plain : IsPlain s
    name_left : length s ≤ m
    pattern_left : length p < k
    fuel_left : m * k + length p < f

  at_star :
      (f m : ℕ) (p s : Text)
      → G ↔ Globs (b'*' ∷ p) s
      → IsPlain s
      → length s ≤ m
      → length p < k
      → m * k + length p < f
      → Search f m p s (some (p, s))
  at_star f m p s g i h l e = record {
    enough = λ d. g.1 (leave d);
    needed = g.0;
    behind = (g, (λ d. d), i, omega arith, h, l);
    plain = i;
    name_left = h;
    pattern_left = l;
    fuel_left = e;
  }

  Behind-byte :
      (m x c : ℕ) (p q s : Text) (back : Back)
      → (x == b'*') ≡ false
      → one x p c ≡ some q
      → Behind m (x ∷ p) (c ∷ s) back
      → Behind m q s back
  Behind-byte m x c p q s none n e h = λ g. same (byte_inv n (h g))
    where
      same : (r : Text) × (one x p c ≡ some r) × Globs r s → Globs q s
      same (r, f, d) = subst (λ t. Globs t s) (cc (e, f)) d
  Behind-byte m x c p q s (some (bp, bs)) n e (g, down, i, h, t, l) =
      (g, (λ d. same (byte_inv n (down d))), i, omega arith, t, l)
    where
      same : (r : Text) × (one x p c ≡ some r) × Globs r s → Globs q s
      same (r, f, d) = subst (λ t. Globs t s) (cc (e, f)) d

  Search-byte :
      (f m x c : ℕ) (p q s : Text) (back : Back)
      → (x == b'*') ≡ false
      → one x p c ≡ some q
      → Search (suc f) m (x ∷ p) (c ∷ s) back
      → Search f m q s back
  Search-byte f m x c p q s back n e i =
      let l = one_shorter x c p q e in
      record {
        enough = λ d. i.enough (byte n e d);
        needed = λ g. greedy x c c p q s n i.plain.0 i.plain e (i.needed g);
        behind = Behind-byte m x c p q s back n e i.behind;
        plain = i.plain.1;
        name_left = let h = i.name_left in omega arith;
        pattern_left = let h = i.pattern_left in omega arith;
        fuel_left = let h = i.fuel_left in omega arith;
      }

  -- After a mismatch the last star takes one more byte, which pays for its pattern again.
  retry-Settles :
      (f m c : ℕ) (p s : Text) (back : Back) (next : Round)
      → ((m' : ℕ) (p' s' : Text) (b : Back) → Search f m' p' s' b → Settles G (next p' s' b))
      → Search (suc f) m p (c ∷ s) back
      → ¬ Globs p (c ∷ s)
      → Settles G (retry back next)
  retry-Settles f m c p s none next ih i n = λ g. n (i.behind g)
  retry-Settles f m c p s (some (bp, [])) next ih i n =
      let (g, down, j, h, t, l) = i.behind in absurd (omega arith)
  retry-Settles f zero c p s (some (bp, b ∷ bs)) next ih i n =
      let (g, down, j, h, t, l) = i.behind in absurd (omega arith)
  retry-Settles f (suc m) c p s (some (bp, b ∷ bs)) next ih i n =
      let (g, down, j, h, t, l) = i.behind in
      let e = i.fuel_left in
      ih m bp bs (some (bp, bs)) (
        at_star f m bp bs (λ x. star_takes (λ d. n (down d)) (g.0 x), λ d. g.1 (take d)) j.1
          (omega arith) l (omega arith))

  turn-Settles :
      (f m x c : ℕ) (p s : Text) (back : Back) (next : Round)
      → ((m' : ℕ) (p' s' : Text) (b : Back) → Search f m' p' s' b → Settles G (next p' s' b))
      → Search (suc f) m (x ∷ p) (c ∷ s) back
      → (b : Bool) → (x == b'*') ≡ b
      → Settles G (turn b x p c s back next)
  turn-Settles f m x c p s back next ih i true t =
      let at : x ≡ b'*' = ground arith in
      let here : (Globs (x ∷ p) (c ∷ s) → G) × (G → Globs (b'*' ∷ x ∷ p) (c ∷ s)) =
        (i.enough, i.needed) in
      let (to, from) =
        subst (λ y. (Globs (y ∷ p) (c ∷ s) → G) × (G → Globs (b'*' ∷ y ∷ p) (c ∷ s))) at here in
      let h = i.pattern_left in
      let e = i.fuel_left in
      ih m p (c ∷ s) (some (p, c ∷ s)) (
        at_star f m p (c ∷ s) (λ g. star_star (from g), to) i.plain i.name_left (omega arith)
          (omega arith))
  turn-Settles f m x c p s back next ih i false n = elim (Option-cases (one x p c)) [
    | inl e ↦ rw e (retry-Settles f m c (x ∷ p) s back next ih i (λ d. mismatch e (byte_inv n d)))
    | inr (q, e) ↦ rw e (ih m q s back (Search-byte f m x c p q s back n e i))
  ]
    where
      mismatch : one x p c ≡ none → (r : Text) × (one x p c ≡ some r) × Globs r s → ⊥
      mismatch e (r, f, d) = some≢none f e

  glob_loop-Settles :
      (f m : ℕ) (p s : Text) (back : Back) → Search f m p s back → Settles G (glob_loop f p s back)
  unfolding glob_loop
  glob_loop-Settles zero m p s back i = let e = i.fuel_left in absurd (omega arith)
  glob_loop-Settles (suc f) m p [] back i =
      settle G (only_stars p) (λ h. i.enough (only_stars-Globs p h))
        (λ g. Globs-only_stars (star_ends (i.needed g)))
  glob_loop-Settles (suc f) m [] (c ∷ s) back i =
      retry-Settles f m c [] s back (glob_loop f) (glob_loop-Settles f) i (λ d. elim d [ ])
  glob_loop-Settles (suc f) m (x ∷ p) (c ∷ s) back i =
      turn-Settles f m x c p s back (glob_loop f) (glob_loop-Settles f) i (x == b'*') refl

-- The loop ends within its fuel, and on a name with no '[' it answers whether the pattern matches
-- the name.
pub glob_loop_ends :
    (p s : Text)
    → IsPlain s
    → Settles (Globs p s) (glob_loop ((length s + 1) * (length p + 1)) p s none)
glob_loop_ends p s i =
    glob_loop-Settles (Globs p s) (length p + 1) ((length s + 1) * (length p + 1)) (length s) p s
      none
      (record {
        enough = λ d. d;
        needed = leave;
        behind = λ d. d;
        plain = i;
        name_left = omega arith;
        pattern_left = omega arith;
        fuel_left = omega arith;
      })

-- On a name with no '[' in it, one path segment is matched exactly when it can be cut so that each
-- star of the pattern takes a piece and every other part of the pattern takes its byte; the loop,
-- which goes back to its last star only, ends within its fuel.
pub seg_glob_iff : (p s : Text) → IsPlain s → (seg_glob p s ≡ true) ↔ Globs p s
unfolding seg_glob
seg_glob_iff p s i =
    read (glob_loop ((length s + 1) * (length p + 1)) p s none) (glob_loop_ends p s i)
  where
    read : (r : Option Bool) → Settles (Globs p s) r → (answered r ≡ true) ↔ Globs p s
    read none h = absurd h
    read (some true) h = ((λ e. h), (λ d. refl))
    read (some false) h = ((λ e. absurd (clash e refl)), (λ d. absurd (h d)))
