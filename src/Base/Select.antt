-- ===== src/Base/Select.antt =====
-- Selecting from a list by a Boolean test, and "some element of the list satisfies P".
use Prim.Native.Nat.{ℕ, zero, suc}
use mathlib.Core.Path.{◌≡◌, refl}
use mathlib.Core.List.{List, [], ◌∷◌, ◌++◌}
use mathlib.Core.Option.{some}
use mathlib.Core.Bool.{Bool, true}
use mathlib.Core.Logic.{◌⊎◌, inl, inr}
use native.Mathlib.Omega.{arith}
use spoond.Base.Tests.{if◌then◌else◌, Bool-cases, clash, some≢none}
use spoond.Base.Lists.{All, get_elem?}

module _ {ℓ} {A : Type ℓ} where
  -- The elements that pass the test, in order.
  unfoldable pub keep : (A → Bool) → List A → List A
  keep p [] = []
  keep p (x ∷ xs) = if p x then x ∷ keep p xs else keep p xs

  abbrev pub Any : (A → Type 0) → List A → Type 0
  Any P [] = ⊥
  Any P (x ∷ xs) = P x ⊎ Any P xs

module _ {ℓ} {A : Type ℓ} where
  pub keep-All_test : (p : A → Bool) (xs : List A) → All (λ x. p x ≡ true) (keep p xs)
  unfolding keep
  keep-All_test p [] = tt
  keep-All_test p (x ∷ xs) = elim (Bool-cases (p x)) [
    | inl e ↦ rw e (e, keep-All_test p xs)
    | inr e ↦ rw e (keep-All_test p xs)
  ]

  pub keep-All {κ} : (P : A → Type κ) (p : A → Bool) (xs : List A) → All P xs → All P (keep p xs)
  unfolding keep
  keep-All P p [] h = tt
  keep-All P p (x ∷ xs) h = elim (Bool-cases (p x)) [
    | inl e ↦ rw e (h.0, keep-All P p xs h.1)
    | inr e ↦ rw e (keep-All P p xs h.1)
  ]

  -- What holds of all that is kept holds of all that passes the test.
  pub All-keep {κ} :
      (P : A → Type κ) (p : A → Bool) (xs : List A)
      → All P (keep p xs)
      → All (λ x. p x ≡ true → P x) xs
  unfolding keep
  All-keep P p [] h = tt
  All-keep P p (x ∷ xs) h = elim (Bool-cases (p x)) [
    | inl e ↦ let k : All P (x ∷ keep p xs) = rw e at h in (λ _. k.0, All-keep P p xs k.1)
    | inr e ↦ let k : All P (keep p xs) = rw e at h in (λ t. absurd (clash t e), All-keep P p xs k)
  ]

  pub Any-keep : (P : A → Type 0) (p : A → Bool) (xs : List A) → Any P (keep p xs) → Any P xs
  unfolding keep
  Any-keep P p [] h = h
  Any-keep P p (x ∷ xs) h = elim (Bool-cases (p x)) [
    | inl e ↦
        let k : Any P (x ∷ keep p xs) = rw e at h in
        elim k [ inl a ↦ inl a | inr b ↦ inr (Any-keep P p xs b) ]
    | inr e ↦ inr (Any-keep P p xs (rw e at h))
  ]

  pub Any-mono :
      (P : A → Type 0) (Q : A → Type 0) (xs : List A) → ((x : A) → P x → Q x) → Any P xs → Any Q xs
  Any-mono P Q [] f h = absurd h
  Any-mono P Q (x ∷ xs) f (inl a) = inl (f x a)
  Any-mono P Q (x ∷ xs) f (inr b) = inr (Any-mono P Q xs f b)

  pub Any-append : (P : A → Type 0) (xs ys : List A) → Any P (xs ++ ys) → Any P xs ⊎ Any P ys
  Any-append P [] ys h = inr h
  Any-append P (x ∷ xs) ys (inl a) = inl (inl a)
  Any-append P (x ∷ xs) ys (inr b) = elim (Any-append P xs ys b) [
    | inl c ↦ inl (inr c)
    | inr c ↦ inr c
  ]

  -- What holds of all and of some holds of one element together.
  pub Any-and :
      (P : A → Type 0) (Q : A → Type 0) (xs : List A)
      → All P xs
      → Any Q xs
      → Any (λ x. P x × Q x) xs
  Any-and P Q [] h k = absurd k
  Any-and P Q (x ∷ xs) h (inl q) = inl (h.0, q)
  Any-and P Q (x ∷ xs) h (inr k) = inr (Any-and P Q xs h.1 k)

  pub Any-get :
      (P : A → Type 0) (xs : List A) (i : ℕ) (a : A) → P a → get_elem? xs i ≡ some a → Any P xs
  Any-get P [] i a p e = absurd (some≢none e refl)
  Any-get P (x ∷ xs) zero a p e = inl (ground (arith, p))
  Any-get P (x ∷ xs) (suc i) a p e = inr (Any-get P xs i a p e)
