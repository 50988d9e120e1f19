-- ===== src/Gitignore/Line/Rendered.antt =====
-- What parseCompiled reads from a line that is written from its parts, internal/gitignore/pattern.go.
use spoond.Base.{
  ℕ, ◌≡◌, refl, Bool, true, false, ◌||◌, List, [], ◌∷◌, ◌++◌, ◌==◌, ltb, length, arith, Bool-cases,
  inl, inr,
}
use spoond.Base.Text.{Text}
use spoond.Gitignore.Path.{Pattern, push, split}
use spoond.Gitignore.Line.{has_suffix, drop_last, join, parse_compiled}

abbrev before : Bool → ℕ → Text → Text
before false b t = t
before true b t = b ∷ t

abbrev after : Bool → ℕ → Text → Text
after false b t = t
after true b t = t ++ b ∷ []

-- A line: an optional !, an optional /, the body and an optional / at the end.
abbrev pub render : Bool → Bool → Bool → Text → Text
render negated anchored dirs body =
    before negated b'!' (before anchored b'/' (after dirs b'/' body))

has_suffix-append : (b c : ℕ) (t : Text) → has_suffix b (c ∷ (t ++ b ∷ [])) ≡ true
unfolding has_suffix
has_suffix-append b c [] = ground arith
has_suffix-append b c (d ∷ t) = has_suffix-append b d t

drop_last-append : (b c : ℕ) (t : Text) → drop_last (c ∷ (t ++ b ∷ [])) ≡ c ∷ t
unfolding drop_last
drop_last-append b c [] = refl
drop_last-append b c (d ∷ t) = rw (drop_last-append b d t) refl

join-push : (c : ℕ) (ws : List Text) → join (push c ws) ≡ c ∷ join ws
unfolding join
join-push c [] = refl
join-push c (w ∷ []) = refl
join-push c (w ∷ v ∷ ws) = refl

join-nil : (t : Text) → join ([] ∷ split t) ≡ b'/' ∷ join (split t)
unfolding join split
join-nil [] = refl
join-nil (c ∷ t) = elim (Bool-cases (c == b'/')) [
  | inl e ↦ rw e refl
  | inr e ↦ rw e (pushed (split t))
]
  where
    pushed : (ws : List Text) → join ([] ∷ push c ws) ≡ b'/' ∷ join (push c ws)
    pushed [] = refl
    pushed (w ∷ ws) = refl

-- strings.Join is the inverse of strings.Split.
join-split : (t : Text) → join (split t) ≡ t
unfolding split
join-split [] = unfold join in refl
join-split (c ∷ t) = elim (Bool-cases (c == b'/')) [
  | inl e ↦ rw (e, join-nil t, join-split t) (ground arith)
  | inr e ↦ rw (e, join-push c (split t), join-split t) refl
]

module _ (domain : List Text) (c : ℕ) (t : Text) where
  abbrev pub Parsed : Bool → Bool → Bool → Pattern → Type 0
  Parsed negated anchored dirs p = p ≡ record {
    nc = negated;
    ir = anchored || ltb 1 (length (split (c ∷ t)));
    is_dir = dirs;
    domain = domain;
    pattern = c ∷ t;
  }

  -- A line that is written from its parts compiles to them: parseCompiled reads the ! before it, the
  -- / before and after it and the body, if the body is not empty, begins with neither a ! nor a /
  -- and does not end in a /. A body of several segments is anchored too.
  pub parse_compiled-render :
      (negated anchored dirs : Bool)
      → (c == b'!') ≡ false
      → (c == b'/') ≡ false
      → has_suffix b'/' (c ∷ t) ≡ false
      → Parsed negated anchored dirs (parse_compiled (render negated anchored dirs (c ∷ t)) domain)
  unfolding parse_compiled has_suffix drop_last
  parse_compiled-render false false false x y h = simp (h, x, y, join-split (c ∷ t))
  parse_compiled-render false false true x y h =
      simp (has_suffix-append b'/' c t, drop_last-append b'/' c t, x, y, join-split (c ∷ t))
  parse_compiled-render false true false x y h = simp (h, join-split (c ∷ t))
  parse_compiled-render false true true x y h =
      simp (has_suffix-append b'/' c t, drop_last-append b'/' c t, join-split (c ∷ t))
  parse_compiled-render true false false x y h = simp (h, y, join-split (c ∷ t))
  parse_compiled-render true false true x y h =
      simp (has_suffix-append b'/' c t, drop_last-append b'/' c t, y, join-split (c ∷ t))
  parse_compiled-render true true false x y h = simp (h, join-split (c ∷ t))
  parse_compiled-render true true true x y h =
      simp (has_suffix-append b'/' c t, drop_last-append b'/' c t, join-split (c ∷ t))
