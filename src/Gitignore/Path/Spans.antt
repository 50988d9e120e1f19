-- ===== src/Gitignore/Path/Spans.antt =====
-- What a list of pattern segments means, internal/gitignore/match.go.
use spoond.Base.{
  ◌≡◌, refl, Bool, true, false, not, ◌||◌, List, [], ◌∷◌, arith, Bool-cases, inl, inr, ◌↔◌, clash,
}
use spoond.Base.Text.{Text}
use spoond.Gitignore.Segment.{seg_glob}
use spoond.Gitignore.Path.{is_double, any_suffix, across, next_seg, seg_match}

-- Each segment of the pattern takes one of the path, and a ** takes any number, at least one when
-- it is the last.
pub data Spans : List Text → List Text → Type 0 where
  done : Spans [] []
  one_seg :
      {p s : Text} {ps ss : List Text}
      → is_double p ≡ false
      → seg_glob p s ≡ true
      → Spans ps ss
      → Spans (p ∷ ps) (s ∷ ss)
  inside : {p s : Text} {ss : List Text} → is_double p ≡ true → Spans (p ∷ []) (s ∷ ss)
  none_more :
      {p q : Text} {ps ss : List Text}
      → is_double p ≡ true
      → Spans (q ∷ ps) ss
      → Spans (p ∷ q ∷ ps) ss
  one_more :
      {p q s : Text} {ps ss : List Text}
      → is_double p ≡ true
      → Spans (p ∷ q ∷ ps) ss
      → Spans (p ∷ q ∷ ps) (s ∷ ss)

-- A directory where only directories are meant.
abbrev pub DirOk : Bool → Bool → Type 0
DirOk is_dir dir_only = (not dir_only || is_dir) ≡ true

module _ (is_dir dir_only : Bool) where
  abbrev Meant : List Text → List Text → Type 0
  Meant ps ss = Spans ps ss × DirOk is_dir dir_only

  suffix-Meant :
      (p q : Text) (ps ss : List Text) (rest : List Text → Bool)
      → is_double p ≡ true
      → ((s : List Text) → rest s ≡ true → Meant (q ∷ ps) s)
      → any_suffix rest ss ≡ true
      → Meant (p ∷ q ∷ ps) ss
  unfolding any_suffix
  suffix-Meant p q ps [] rest e f h = let (d, o) = f [] h in (none_more e d, o)
  suffix-Meant p q ps (s ∷ ss) rest e f h = elim (Bool-cases (rest (s ∷ ss))) [
    | inl t ↦ let (d, o) = f (s ∷ ss) t in (none_more e d, o)
    | inr t ↦ let (d, o) = suffix-Meant p q ps ss rest e f (ground arith) in (one_more e d, o)
  ]

  across-Meant :
      (p : Text) (ps ss : List Text) (rest : List Text → Bool)
      → is_double p ≡ true
      → ((s : List Text) → rest s ≡ true → Meant ps s)
      → across is_dir dir_only ps rest ss ≡ true
      → Meant (p ∷ ps) ss
  across-Meant p [] [] rest e f h = absurd (clash h refl)
  across-Meant p [] (s ∷ ss) rest e f h = (inside e, h)
  across-Meant p (q ∷ ps) ss rest e f h = suffix-Meant p q ps ss rest e f h

  next_seg-Meant :
      (p : Text) (ps ss : List Text) (rest : List Text → Bool)
      → is_double p ≡ false
      → ((s : List Text) → rest s ≡ true → Meant ps s)
      → next_seg p rest ss ≡ true
      → Meant (p ∷ ps) ss
  next_seg-Meant p ps [] rest e f h = absurd (clash h refl)
  next_seg-Meant p ps (s ∷ ss) rest e f h =
      let (d, o) = f ss (ground arith) in
      let g : seg_glob p s ≡ true = ground arith in (one_seg e g d, o)

  seg_match-Meant : (ps ss : List Text) → seg_match is_dir dir_only ps ss ≡ true → Meant ps ss
  unfolding seg_match
  seg_match-Meant [] [] h = (done, ground arith)
  seg_match-Meant [] (s ∷ ss) h = absurd (clash h refl)
  seg_match-Meant (p ∷ ps) ss h = elim (Bool-cases (is_double p)) [
    | inl e ↦
        let k : across is_dir dir_only ps (seg_match is_dir dir_only ps) ss ≡ true = rw e at h in
        across-Meant p ps ss (seg_match is_dir dir_only ps) e (seg_match-Meant ps) k
    | inr e ↦
        let k : next_seg p (seg_match is_dir dir_only ps) ss ≡ true = rw e at h in
        next_seg-Meant p ps ss (seg_match is_dir dir_only ps) e (seg_match-Meant ps) k
  ]

  any_suffix_here :
      (rest : List Text → Bool) (ss : List Text) → rest ss ≡ true → any_suffix rest ss ≡ true
  unfolding any_suffix
  any_suffix_here rest [] h = h
  any_suffix_here rest (s ∷ ss) h = ground arith

  any_suffix_later :
      (rest : List Text → Bool) (s : Text) (ss : List Text)
      → any_suffix rest ss ≡ true
      → any_suffix rest (s ∷ ss) ≡ true
  unfolding any_suffix
  any_suffix_later rest s ss h = ground arith

  Spans-seg_match :
      {ps ss : List Text}
      → Spans ps ss
      → DirOk is_dir dir_only
      → seg_match is_dir dir_only ps ss ≡ true
  unfolding seg_match
  Spans-seg_match done o = ground arith
  Spans-seg_match (one_seg e g d) o = let r = Spans-seg_match d o in rw (e, g, r) refl
  Spans-seg_match (inside e) o = rw (e, o) refl
  Spans-seg_match (none_more {q} {ps} {ss} e d) o =
      rw e (any_suffix_here (seg_match is_dir dir_only (q ∷ ps)) ss (Spans-seg_match d o))
  Spans-seg_match (one_more {q} {s} {ps} {ss} e d) o =
      let r = Spans-seg_match d o in
      let k : any_suffix (seg_match is_dir dir_only (q ∷ ps)) ss ≡ true = rw e at r in
      rw e (any_suffix_later (seg_match is_dir dir_only (q ∷ ps)) s ss k)

  -- The segments match exactly when they span the path, which must end in a directory where only
  -- directories are meant.
  pub seg_match_iff :
      (ps ss : List Text)
      → (seg_match is_dir dir_only ps ss ≡ true) ↔ (Spans ps ss × DirOk is_dir dir_only)
  seg_match_iff ps ss = (seg_match-Meant ps ss, λ (d, o). Spans-seg_match d o)
