-- ===== src/Gitignore/Segment/Glob.antt =====
-- What a pattern segment means, with no search order in it, and the loop of segGlob decides it.
use spoond.Base.{
  ℕ, suc, ◌≤◌, ◌≡◌, refl, true, false, Option, none, some, [], ◌∷◌, ◌==◌, length, arith, All,
  Bool-cases, inl, inr, clash, subst,
}
use spoond.Base.Text.{Text}
use spoond.Gitignore.Segment.{until_bracket, in_class, literal, bracket, one, only_stars}

pub data Globs : Text → Text → Type 0 where
  ends : Globs [] []
  byte :
      {x c : ℕ} {p q s : Text}
      → (x == b'*') ≡ false
      → one x p c ≡ some q
      → Globs q s
      → Globs (x ∷ p) (c ∷ s)
  leave : {p s : Text} → Globs p s → Globs (b'*' ∷ p) s
  take : {c : ℕ} {p s : Text} → Globs (b'*' ∷ p) s → Globs (b'*' ∷ p) (c ∷ s)

abbrev pub NotBracket : ℕ → Type 0
NotBracket c = (c == b'[') ≡ false

-- A name with no '[' in it.
abbrev pub IsPlain : Text → Type 0
IsPlain = All NotBracket

-- What is left of the pattern is not longer than `n`.
abbrev Leaves : ℕ → Option Text → Type 0
Leaves n none = Unit
Leaves n (some q) = length q ≤ n

abbrev LeavesAfter : ℕ → Option (Text × Text) → Type 0
LeavesAfter n none = Unit
LeavesAfter n (some (class, q)) = length q ≤ n

until_bracket-LeavesAfter : (p : Text) → LeavesAfter (length p) (until_bracket p)
unfolding until_bracket
until_bracket-LeavesAfter [] = tt
until_bracket-LeavesAfter (c ∷ p) = elim (Bool-cases (c == b']')) [
  | inl e ↦ rw e (omega arith)
  | inr e ↦ rw e (grown (until_bracket p) (until_bracket-LeavesAfter p))
]
  where
    grown :
        (o : Option (Text × Text))
        → LeavesAfter (length p) o
        → LeavesAfter (suc (length p)) (elim o [ none ↦ none | some q ↦ some (c ∷ q.0, q.1) ])
    grown none h = tt
    grown (some (class, q)) h = omega arith

literal-Leaves : (x : ℕ) (p : Text) (c : ℕ) → Leaves (length p) (literal x p c)
literal-Leaves x [] c = ground arith
literal-Leaves x (y ∷ p) c = ground arith

bracket-Leaves :
    (p : Text) (c : ℕ) (b : Option (Text × Text))
    → LeavesAfter (length p) b
    → Leaves (length p) (bracket p c b)
bracket-Leaves p c none h = literal-Leaves b'[' p c
bracket-Leaves p c (some ([], rest)) h = literal-Leaves b'[' p c
bracket-Leaves p c (some (x ∷ class, rest)) h = elim (Bool-cases (in_class (x ∷ class) c)) [
  | inl t ↦ rw t h
  | inr f ↦ rw f (literal-Leaves b'[' p c)
]

-- A byte takes at least the head of the pattern.
one-Leaves : (x : ℕ) (p : Text) (c : ℕ) → Leaves (length p) (one x p c)
unfolding one
one-Leaves x p c = elim (Bool-cases (x == b'?')) [
  | inl e ↦ rw e (omega arith)
  | inr e ↦ elim (Bool-cases (x == b'[')) [
    | inl f ↦ rw (e, f) (bracket-Leaves p c (until_bracket p) (until_bracket-LeavesAfter p))
    | inr f ↦ rw (e, f) (literal-Leaves x p c)
  ]
]

-- The head of the pattern leaves the same rest for every byte that it takes.
abbrev Agree : Option Text → Option Text → Type 0
Agree none b = Unit
Agree (some q) none = Unit
Agree (some q) (some r) = q ≡ r

literal-Agree : (x : ℕ) (p : Text) (c d : ℕ) → Agree (literal x p c) (literal x p d)
literal-Agree x [] c d = ground arith
literal-Agree x (y ∷ p) c d = ground arith

literal_bracket : (p : Text) (c : ℕ) → NotBracket c → literal b'[' p c ≡ none
literal_bracket [] c h = ground arith
literal_bracket (y ∷ p) c h = ground arith

bracket-Agree :
    (p : Text) (c d : ℕ) (b : Option (Text × Text))
    → NotBracket c
    → NotBracket d
    → Agree (bracket p c b) (bracket p d b)
bracket-Agree p c d none h k = literal-Agree b'[' p c d
bracket-Agree p c d (some ([], rest)) h k = literal-Agree b'[' p c d
bracket-Agree p c d (some (x ∷ class, rest)) h k =
    let l = literal_bracket p c h in
    let r = literal_bracket p d k in
    elim (Bool-cases (in_class (x ∷ class) c)) [
      | inr f ↦ rw (f, l) tt
      | inl t ↦ elim (Bool-cases (in_class (x ∷ class) d)) [
        | inl u ↦ rw (t, u) refl
        | inr u ↦ rw (t, u, r) tt
      ]
    ]

one-Agree :
    (x : ℕ) (p : Text) (c d : ℕ) → NotBracket c → NotBracket d → Agree (one x p c) (one x p d)
unfolding one
one-Agree x p c d h k = elim (Bool-cases (x == b'?')) [
  | inl e ↦ rw e refl
  | inr e ↦ elim (Bool-cases (x == b'[')) [
    | inl f ↦ rw (e, f) (bracket-Agree p c d (until_bracket p) h k)
    | inr f ↦ rw (e, f) (literal-Agree x p c d)
  ]
]

pub one_unique :
    (x c d : ℕ) (p q r : Text)
    → NotBracket c
    → NotBracket d
    → one x p c ≡ some q
    → one x p d ≡ some r
    → q ≡ r
one_unique x c d p q r h k e f = let a = one-Agree x p c d h k in rw (e, f) at a

pub one_shorter : (x c : ℕ) (p q : Text) → one x p c ≡ some q → length q ≤ length p
one_shorter x c p q e = let a = one-Leaves x p c in rw e at a

pub byte_inv :
    {x c : ℕ} {p s : Text}
    → (x == b'*') ≡ false
    → Globs (x ∷ p) (c ∷ s)
    → (q : Text) × (one x p c ≡ some q) × Globs q s
byte_inv h (byte {q} n e d) = (q, e, d)
byte_inv h (leave d) = absurd (clash refl h)
byte_inv h (take d) = absurd (clash refl h)

pub not_at_end : {x : ℕ} {p : Text} → (x == b'*') ≡ false → Globs (x ∷ p) [] → ⊥
not_at_end n (leave d) = clash refl n

pub star_takes :
    {c : ℕ} {p s : Text} → ¬ Globs p (c ∷ s) → Globs (b'*' ∷ p) (c ∷ s) → Globs (b'*' ∷ p) s
star_takes n (byte h e d) = absurd (clash refl h)
star_takes n (leave d) = absurd (n d)
star_takes n (take d) = d

pub star_ends : {p : Text} → Globs (b'*' ∷ p) [] → Globs p []
star_ends (leave d) = d

pub star_star : {p s : Text} → Globs (b'*' ∷ b'*' ∷ p) s → Globs (b'*' ∷ p) s
star_star (byte h e d) = absurd (clash refl h)
star_star (leave d) = d
star_star (take d) = take (star_star d)

-- Nothing is lost when the head of the pattern, after a star, takes the first byte that it can.
pub greedy :
    (x b c : ℕ) (p q s : Text)
    → (x == b'*') ≡ false
    → NotBracket b
    → IsPlain (c ∷ s)
    → one x p b ≡ some q
    → Globs (b'*' ∷ x ∷ p) (c ∷ s)
    → Globs (b'*' ∷ q) s
greedy x b c p q s n k h e (byte m f d) = absurd (clash refl m)
greedy x b c p q s n k h e (leave d) =
    let (r, f, d') = byte_inv n d in
    leave (subst (λ t. Globs t s) (one_unique x c b p r q h.0 k f e) d')
greedy x b c p q [] n k h e (take (leave d)) = absurd (not_at_end n d)
greedy x b c p q (c' ∷ s) n k h e (take d) = take (greedy x b c' p q s n k h.1 e d)

pub only_stars-Globs : (p : Text) → only_stars p ≡ true → Globs p []
unfolding only_stars
only_stars-Globs [] h = ends
only_stars-Globs (x ∷ p) h =
    let m : b'*' ≡ x = ground arith in
    subst (λ y. Globs (y ∷ p) []) m (leave (only_stars-Globs p (ground arith)))

pub Globs-only_stars : {p : Text} → Globs p [] → only_stars p ≡ true
unfolding only_stars
Globs-only_stars ends = refl
Globs-only_stars (leave d) = Globs-only_stars d
