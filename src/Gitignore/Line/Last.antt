-- ===== src/Gitignore/Line/Last.antt =====
-- The last line that speaks about a path decides, internal/gitignore/dir.go.
use spoond.Base.{
  ◌≡◌, refl, sym, Bool, true, false, not, none, some, List, [], ◌∷◌, Option-cases, inl, inr, ◌↔◌,
  clash, some≢none, All, arith,
}
use spoond.Base.Text.{Text}
use spoond.Gitignore.Path.{Pattern, match_pattern}
use spoond.Gitignore.Path.Reaches.{Reaches, match_pattern_sound, match_pattern_complete}
use spoond.Gitignore.Line.{decide, says_ignore, match}

module _ (path : List Text) (is_dir : Bool) where
  -- The last line of the list that reaches the path has the negation `nc`.
  pub data Last (nc : Bool) : List Pattern → Type 0 where
    here :
        {p : Pattern} {ps : List Pattern}
        → p.nc ≡ nc
        → Reaches p path is_dir
        → All (λ q. ¬ Reaches q path is_dir) ps
        → Last nc (p ∷ ps)
    later : {p : Pattern} {ps : List Pattern} → Last nc ps → Last nc (p ∷ ps)

module _ (path : List Text) (is_dir : Bool) where
  silent : (p : Pattern) → match_pattern p path is_dir ≡ none → ¬ Reaches p path is_dir
  silent p e r = some≢none (match_pattern_complete p is_dir path r) e

  decide-none :
      (ps : List Pattern) → decide ps path is_dir ≡ none → All (λ q. ¬ Reaches q path is_dir) ps
  unfolding decide
  decide-none [] e = tt
  decide-none (p ∷ ps) e = elim (Option-cases (decide ps path is_dir)) [
    | inl n ↦
        let k : match_pattern p path is_dir ≡ none = rw n at e in (silent p k, decide-none ps n)
    | inr (b, s) ↦ let k : some b ≡ none = rw s at e in absurd (some≢none refl k)
  ]

  decide-some :
      (ps : List Pattern) (nc : Bool)
      → decide ps path is_dir ≡ some (not nc)
      → Last path is_dir nc ps
  unfolding decide
  decide-some [] nc e = absurd (some≢none refl (sym e))
  decide-some (p ∷ ps) nc e = elim (Option-cases (decide ps path is_dir)) [
    | inl n ↦
        let k : match_pattern p path is_dir ≡ some (not nc) = rw n at e in
        let (v, r) = match_pattern_sound p is_dir path (not nc) k in
        here (ground arith) r (decide-none ps n)
    | inr (b, s) ↦ let k : some b ≡ some (not nc) = rw s at e in later (decide-some ps nc (rw s k))
  ]

  All-decide :
      (ps : List Pattern) → All (λ q. ¬ Reaches q path is_dir) ps → decide ps path is_dir ≡ none
  unfolding decide
  All-decide [] h = refl
  All-decide (p ∷ ps) (n, h) = elim (Option-cases (match_pattern p path is_dir)) [
    | inl e ↦ let r = All-decide ps h in rw r e
    | inr (b, e) ↦ absurd (n (match_pattern_sound p is_dir path b e).1)
  ]

  Last-decide :
      (nc : Bool) (ps : List Pattern)
      → Last path is_dir nc ps
      → decide ps path is_dir ≡ some (not nc)
  unfolding decide
  Last-decide nc [] l = elim l [ ]
  Last-decide nc (p ∷ ps) (here m r h) =
      let n = All-decide ps h in let c = match_pattern_complete p is_dir path r in rw (n, c, m) refl
  Last-decide nc (p ∷ ps) (later l) = let r = Last-decide nc ps l in rw r refl

  -- A path is ignored exactly when the last line of the list that reaches it is not negated. A line
  -- reaches a path below its domain when its segments span the rest of the path from the domain, or
  -- from any place below it if the line is not anchored, and the path is a directory if it must be.
  pub match_iff : (ps : List Pattern) → (match ps path is_dir ≡ true) ↔ Last path is_dir false ps
  unfolding match
  match_iff ps = (to, λ l. rw (Last-decide false ps l) refl)
    where
      to : says_ignore (decide ps path is_dir) ≡ true → Last path is_dir false ps
      to e = elim (Option-cases (decide ps path is_dir)) [
        | inl n ↦ let k : false ≡ true = rw n at e in absurd (clash k refl)
        | inr (b, s) ↦ let k : b ≡ true = rw s at e in decide-some ps false (rw (s, k) refl)
      ]
