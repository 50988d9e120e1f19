-- ===== src/Gitignore/Path/Reaches.antt =====
-- Which paths a compiled line speaks about, internal/gitignore/match.go.
use spoond.Base.{
  ◌≡◌, refl, sym, ap, ◌∙◌, Bool, true, false, not, Option, none, some, List, [], ◌∷◌, ◌++◌,
  Bool-cases, Option-cases, inl, inr, clash, some≢none,
}
use spoond.Base.Text.{Text, text_eq, text_eq→eq, text_eq_refl}
use spoond.Gitignore.Path.{
  Pattern, seg_match, strip, after_domain, split, drop_empty_last, first_suffix, start_of, verdict,
  match_from, match_pattern,
}
use spoond.Gitignore.Path.Spans.{
  Spans, done, one_seg, inside, none_more, one_more, DirOk, seg_match_iff,
}

abbrev pub HasSegment : List Text → Type 0
HasSegment [] = ⊥
HasSegment (s ∷ ss) = Unit

-- The path is the domain, then `start`, which is empty for an anchored line, then `rest`, which has
-- a segment and is what the segments of the line span.
pub record Reaches (p : Pattern) (path : List Text) (is_dir : Bool) : Type 0 where
  pub start : List Text
  pub rest : List Text
  pub cut : path ≡ p.domain ++ (start ++ rest)
  pub anchored : p.ir ≡ true → start ≡ []
  pub below : HasSegment rest
  pub spans : Spans (drop_empty_last (split p.pattern)) rest
  pub dir_ok : DirOk is_dir p.is_dir

strip_sound : (ds path r : List Text) → strip ds path ≡ some r → path ≡ ds ++ r
unfolding strip
strip_sound [] [] r e = absurd (some≢none e refl)
strip_sound [] (s ∷ ss) r e = cc
strip_sound (d ∷ ds) [] r e = absurd (some≢none e refl)
strip_sound (d ∷ ds) (s ∷ ss) r e = elim (Bool-cases (text_eq d s)) [
  | inl t ↦
      let same = text_eq→eq d s t in
      let k : strip ds ss ≡ some r = rw t at e in let h = strip_sound ds ss r k in cc
  | inr t ↦ let k : none ≡ some r = rw t at e in absurd (some≢none refl (sym k))
]

after_domain_sound : (ds path r : List Text) → after_domain ds path ≡ some r → path ≡ ds ++ r
after_domain_sound [] path r e = cc
after_domain_sound (d ∷ ds) path r e = strip_sound (d ∷ ds) path r e

strip_complete : (ds r : List Text) → HasSegment r → strip ds (ds ++ r) ≡ some r
unfolding strip
strip_complete [] [] h = absurd h
strip_complete [] (s ∷ ss) h = refl
strip_complete (d ∷ ds) r h = let t = text_eq_refl d in rw t (strip_complete ds r h)

after_domain_complete : (ds r : List Text) → HasSegment r → after_domain ds (ds ++ r) ≡ some r
after_domain_complete [] r h = refl
after_domain_complete (d ∷ ds) r h = strip_complete (d ∷ ds) r h

module _ (test : List Text → Bool) where
  first_suffix_sound :
      (path r : List Text)
      → first_suffix test path ≡ some r
      → (start : List Text) × (path ≡ start ++ r) × (test r ≡ true) × HasSegment r
  unfolding first_suffix
  first_suffix_sound [] r e = absurd (some≢none e refl)
  first_suffix_sound (s ∷ ss) r e = elim (Bool-cases (test (s ∷ ss))) [
    | inl t ↦
        let k : some (s ∷ ss) ≡ some r = rw t at e in
        let same : s ∷ ss ≡ r = cc in ([], same, rw (← same) t, rw (← same) tt)
    | inr t ↦
        let k : first_suffix test ss ≡ some r = rw t at e in
        let (start, c, h, n) = first_suffix_sound ss r k in (s ∷ start, ap (◌∷◌ s) c, h, n)
  ]

  first_suffix_complete :
      (start r : List Text)
      → HasSegment r
      → test r ≡ true
      → (q : List Text) × (first_suffix test (start ++ r) ≡ some q) × (test q ≡ true)
  unfolding first_suffix
  first_suffix_complete [] [] n h = absurd n
  first_suffix_complete [] (s ∷ ss) n h = (s ∷ ss, rw h refl, h)
  first_suffix_complete (t ∷ start) r n h = elim (Bool-cases (test (t ∷ start ++ r))) [
    | inl e ↦ (t ∷ start ++ r, rw e refl, e)
    | inr e ↦ let (q, f, k) = first_suffix_complete start r n h in (q, rw e f, k)
  ]

Spans-HasSegment : {p : Text} {ps ss : List Text} → Spans (p ∷ ps) ss → HasSegment ss
Spans-HasSegment (one_seg h g d) = tt
Spans-HasSegment (inside h) = tt
Spans-HasSegment (none_more h d) = Spans-HasSegment d
Spans-HasSegment (one_more h d) = tt

HasSegment-append : (start r : List Text) → HasSegment r → HasSegment (start ++ r)
HasSegment-append [] r h = h
HasSegment-append (s ∷ start) r h = tt

-- What a line says of a path that it speaks about: to ignore it, or a negated line to keep it.
module _ (p : Pattern) (is_dir : Bool) where
  abbrev test_of : List Text → List Text → Bool
  test_of pat = seg_match is_dir p.is_dir pat

  verdict_sound :
      (test : List Text → Bool) (o : Option (List Text)) (b : Bool)
      → verdict p.nc test o ≡ some b
      → (b ≡ not p.nc) × (r : List Text) × (o ≡ some r) × (test r ≡ true)
  verdict_sound test none b e = absurd (some≢none refl (sym e))
  verdict_sound test (some r) b e = elim (Bool-cases (test r)) [
    | inl t ↦ let k : some (not p.nc) ≡ some b = rw t at e in (cc, r, refl, t)
    | inr t ↦ let k : none ≡ some b = rw t at e in absurd (some≢none refl (sym k))
  ]

  start_sound :
      (test : List Text → Bool) (path r : List Text)
      → start_of p.ir test path ≡ some r
      → test r ≡ true
      → (start : List Text) × (path ≡ start ++ r) × (p.ir ≡ true → start ≡ [])
  start_sound test path r e t = go p.ir e
    where
      go :
          (ir : Bool)
          → start_of ir test path ≡ some r
          → (start : List Text) × (path ≡ start ++ r) × (ir ≡ true → start ≡ [])
      go true f = ([], cc, λ _. refl)
      go false f =
          let (start, c, h, n) = first_suffix_sound test path r f in
          (start, c, λ x. absurd (clash x refl))

  match_from_sound :
      (pat path below : List Text) (b : Bool)
      → path ≡ p.domain ++ below
      → pat ≡ drop_empty_last (split p.pattern)
      → match_from p is_dir pat (some below) ≡ some b
      → (b ≡ not p.nc) × Reaches p path is_dir
  match_from_sound [] path below b c d e = absurd (some≢none refl (sym e))
  match_from_sound (s ∷ pat) path below b c d e =
      let (v, r, o, t) =
        verdict_sound (test_of (s ∷ pat)) (start_of p.ir (test_of (s ∷ pat)) below) b e in
      let (start, cut, anchored) = start_sound (test_of (s ∷ pat)) below r o t in
      let (spans, ok) = (seg_match_iff is_dir p.is_dir (s ∷ pat) r).0 t in
      (
        v,
        record {
          start = start;
          rest = r;
          cut = c ∙ ap (λ (x : List Text). p.domain ++ x) cut;
          anchored = anchored;
          below = Spans-HasSegment spans;
          spans = rw (← d) spans;
          dir_ok = ok;
        },
      )

  pub match_pattern_sound :
      (path : List Text) (b : Bool)
      → match_pattern p path is_dir ≡ some b
      → (b ≡ not p.nc) × Reaches p path is_dir
  unfolding match_pattern
  match_pattern_sound path b e = elim (Option-cases (after_domain p.domain path)) [
    | inl n ↦ let k : none ≡ some b = rw n at e in absurd (some≢none refl (sym k))
    | inr (below, o) ↦
        let k : match_from p is_dir (drop_empty_last (split p.pattern)) (some below) ≡ some b =
          rw o at e in
        match_from_sound (drop_empty_last (split p.pattern)) path below b
          (after_domain_sound p.domain path below o) refl k
  ]

  verdict_complete :
      (test : List Text → Bool) (start rest : List Text)
      → (p.ir ≡ true → start ≡ [])
      → HasSegment rest
      → test rest ≡ true
      → verdict p.nc test (start_of p.ir test (start ++ rest)) ≡ some (not p.nc)
  verdict_complete test start rest a n t = go p.ir a
    where
      go :
          (ir : Bool)
          → (ir ≡ true → start ≡ [])
          → verdict p.nc test (start_of ir test (start ++ rest)) ≡ some (not p.nc)
      go true f = let e = f refl in rw (e, t) refl
      go false f = let (q, e, k) = first_suffix_complete test start rest n t in rw (e, k) refl

  match_from_complete :
      (pat start rest : List Text)
      → (p.ir ≡ true → start ≡ [])
      → HasSegment rest
      → Spans pat rest
      → DirOk is_dir p.is_dir
      → match_from p is_dir pat (some (start ++ rest)) ≡ some (not p.nc)
  match_from_complete [] start rest a n s o = absurd (empty_spans s n)
    where
      empty_spans : {ss : List Text} → Spans [] ss → HasSegment ss → ⊥
      empty_spans done h = h
  match_from_complete (s ∷ pat) start rest a n d o =
      verdict_complete (test_of (s ∷ pat)) start rest a n
        ((seg_match_iff is_dir p.is_dir (s ∷ pat) rest).1 (d, o))

  pub match_pattern_complete :
      (path : List Text) → Reaches p path is_dir → match_pattern p path is_dir ≡ some (not p.nc)
  unfolding match_pattern
  match_pattern_complete path r =
      let whole =
        after_domain_complete p.domain (r.start ++ r.rest)
          (HasSegment-append r.start r.rest r.below) in
      rw (r.cut, whole)
        (match_from_complete (drop_empty_last (split p.pattern)) r.start r.rest r.anchored r.below
          r.spans r.dir_ok)
