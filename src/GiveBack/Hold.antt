-- ===== src/GiveBack/Hold.antt =====
-- The hold on a lease that is taken back again, api/give_back.go.
use spoond.Base.{
  ℕ, zero, suc, ◌+◌, ◌-◌, ◌*◌, ◌^◌, ◌≤◌, ◌≡◌, refl, min, arith, ltb, leb, if◌then◌else◌, some,
  false, Bool-cases, inl, inr,
}
use native.Mathlib.Numerals.{unary_clauses}
use spoond.GiveBack.{
  GiveBackLease, doubled, hold_give_back, give_back_hold_base, give_back_hold_max, give_back_stable,
}

pow_suc : (h n : ℕ) → h * 2 ^ suc n ≡ h * 2 * 2 ^ n
pow_suc h n = simp unary_clauses (grind arith)

pow_pos : (n : ℕ) → 1 ≤ 2 ^ n
pow_pos zero = omega arith
pow_pos (suc n) = simp unary_clauses (let r = pow_pos n in omega arith)

le-mul_pow : (h n : ℕ) → h ≤ h * 2 ^ n
le-mul_pow h n = let r = pow_pos n in grind arith

-- The doubling that stops at the cap is the power of two, capped.
doubled_lem : (n h : ℕ) → min (doubled n h) give_back_hold_max ≡ min (h * 2 ^ n) give_back_hold_max
unfolding doubled
doubled_lem zero h = omega arith
doubled_lem (suc n) h = elim (Bool-cases (ltb h give_back_hold_max)) [
  | inl e ↦ rw (e, pow_suc h n) (doubled_lem n (h * 2))
  | inr e ↦ rw e (let r = le-mul_pow h (suc n) in omega (arith, capped h e))
]
  where
    capped : (h : ℕ) → ltb h give_back_hold_max ≡ false → give_back_hold_max ≤ h
    capped h e = ground arith

hold_bounds : (k : ℕ) → give_back_hold_base ≤ min (give_back_hold_base * 2 ^ k) give_back_hold_max
hold_bounds k = let r = le-mul_pow give_back_hold_base k in omega arith

-- A lease that is taken back again after a give-back is held for the base time doubled once for each
-- earlier re-take, at most for the maximum and at least for the base; its re-takes count from 1
-- again when it ran for the stable time after the give-back.
pub hold_give_back_lem :
    (l : GiveBackLease) (given : ℕ)
    → l.given_back_at ≡ some given
    → let k = if leb give_back_stable (l.take_back_at - given) then 0 else l.give_back_retakes in
      let until = (hold_give_back l).give_back_hold_until in
      ((hold_give_back l).give_back_retakes ≡ k + 1)
      × (until ≡ l.take_back_at + min (give_back_hold_base * 2 ^ k) give_back_hold_max)
      × (l.take_back_at + give_back_hold_base ≤ until)
      × (until ≤ l.take_back_at + give_back_hold_max)
unfolding hold_give_back
hold_give_back_lem l given e =
    let k = if leb give_back_stable (l.take_back_at - given) then 0 else l.give_back_retakes in
    let d = doubled_lem k give_back_hold_base in
    let b = hold_bounds k in rw e (omega arith, rw d refl, rw d (omega arith), omega arith)
