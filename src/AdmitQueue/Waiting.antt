-- ===== src/AdmitQueue/Waiting.antt =====
-- Which sequence numbers a list of tickets holds.
use spoond.Base.{
  ℕ, ◌≡◌, refl, Bool, false, not, ◌&&◌, ◌||◌, List, [], ◌∷◌, ◌++◌, arith, ◌==◌, Bool-cases, inl,
  inr, keep,
}
use spoond.AdmitQueue.{without}

abbrev pub has : ℕ → List ℕ → Bool
has j [] = false
has j (k ∷ ks) = (j == k) || has j ks

pub has-append : (j k : ℕ) (ks : List ℕ) → has j (ks ++ k ∷ []) ≡ (has j ks || (j == k))
has-append j k [] = ground arith
has-append j k (x ∷ ks) = let r = has-append j k ks in ground arith

pub has-keep : (p : ℕ → Bool) (j : ℕ) (ks : List ℕ) → has j (keep p ks) ≡ (has j ks && p j)
unfolding keep
has-keep p j [] = refl
has-keep p j (k ∷ ks) =
    let r = has-keep p j ks in
    elim (Bool-cases (j == k)) [
      | inl e ↦ let m : j ≡ k = ground arith in ground arith
      | inr e ↦ ground arith
    ]

pub has-without : (j k : ℕ) (ks : List ℕ) → has j (without k ks) ≡ (has j ks && not (j == k))
has-without j k ks = has-keep (λ x. not (x == k)) j ks

pub without_absent : (k : ℕ) (ks : List ℕ) → has k ks ≡ false → without k ks ≡ ks
unfolding keep
without_absent k [] h = refl
without_absent k (x ∷ ks) h = let r = without_absent k ks in ground arith
