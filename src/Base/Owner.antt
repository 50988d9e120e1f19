-- ===== src/Base/Owner.antt =====
-- A flag that one of many threads holds at a time, by a test on where each thread stands.
use Prim.Native.Nat.{ℕ}
use mathlib.Core.Path.{◌≡◌, refl, sym, ◌∙◌}
use mathlib.Core.Bool.{Bool, true, false}
use mathlib.Core.Logic.{inl, inr}
use native.Mathlib.Omega.{arith}
use spoond.Base.Tests.{◌==◌, if◌then◌else◌, Bool-cases, clash}

module _ {P : Type 0} where
  -- One thread moves on.
  abbrev pub put_at : ℕ → P → (ℕ → P) → ℕ → P
  put_at k v pc j = if j == k then v else pc j

module _ {P : Type 0} (owns : P → Bool) where
  -- The flag is set exactly while one thread owns it.
  pub record IsOwned (flag : Bool) (pc : ℕ → P) : Type 0 where
    pub set : (k : ℕ) → owns (pc k) ≡ true → flag ≡ true
    pub single : (j k : ℕ) → owns (pc j) ≡ true → owns (pc k) ≡ true → j ≡ k
    pub owner : flag ≡ true → (k : ℕ) × (owns (pc k) ≡ true)

  module _ (k : ℕ) (v : P) {flag : Bool} {pc : ℕ → P} (o : IsOwned flag pc) where
    put_same : owns (pc k) ≡ owns v → (j : ℕ) → owns (put_at k v pc j) ≡ owns (pc j)
    put_same e j = ground arith

    pub put_keeps : owns (pc k) ≡ owns v → IsOwned flag (put_at k v pc)
    put_keeps e = record {
      set = λ j h. o.set j (sym (put_same e j) ∙ h);
      single = λ i j h h'. o.single i j (sym (put_same e i) ∙ h) (sym (put_same e j) ∙ h');
      owner = λ s. let (j, h) = o.owner s in (j, put_same e j ∙ h);
    }

    only_k : flag ≡ false → (j : ℕ) → owns (put_at k v pc j) ≡ true → j ≡ k
    only_k n j h = ground (arith, o.set j)

    pub put_takes : flag ≡ false → owns v ≡ true → IsOwned true (put_at k v pc)
    put_takes n e = record {
      set = λ j h. refl;
      single = λ i j h h'. only_k n i h ∙ sym (only_k n j h');
      owner = λ s. (k, ground arith);
    }

    nobody : owns (pc k) ≡ true → owns v ≡ false → (j : ℕ) → owns (put_at k v pc j) ≡ false
    nobody h e j = elim (Bool-cases (owns (put_at k v pc j))) [
      | inl y ↦ ground (arith, o.single j k)
      | inr n ↦ n
    ]

    pub put_gives : owns (pc k) ≡ true → owns v ≡ false → IsOwned false (put_at k v pc)
    put_gives h e = record {
      set = λ j y. absurd (clash y (nobody h e j));
      single = λ i j y z. absurd (clash y (nobody h e i));
      owner = λ s. absurd (clash s refl);
    }
