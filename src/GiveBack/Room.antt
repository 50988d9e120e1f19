-- ===== src/GiveBack/Room.antt =====
-- When a give-back happens, api/give_back.go.
use spoond.Base.{
  ℕ, zero, suc, ◌+◌, ◌*◌, ◌≡◌, ◌≤◌, refl, Bool, true, false, ◌||◌, Option, none, some, List, ltb,
  arith, Bool-cases, inl, inr, some≢none, subst,
}
use spoond.Base.Text.{Text}
use spoond.Base.Int.{
  ℤ, pos, negsuc, ◌+ℤ◌, ◌-ℤ◌, ◌≤ℤ◌, ◌<ℤ◌, ltb_ℤ, ltb_ℤ→ge, ltb_ℤ→lt, -ℤ_parts, max_ℤ,
}
use spoond.GiveBack.{
  GiveBackLease, Tick, minute, is_recent, unfaulted, fits_again, try_candidate, give_back_one,
  give_back_margin_mib, give_back_candidate, give_back_quiet_for, give_back_quiet,
  give_back_floor_quiet,
}
use spoond.GiveBack.Candidate.{IsLongest, give_back_candidate-IsLongest}

-- The margin of a setting: 1024 MiB without one, and none for a negative one.
abbrev pub IsMargin : ℤ → ℤ → Type 0
IsMargin setting m =
    (setting ≡ pos 0 → m ≡ pos 1024)
    × (pos 0 <ℤ setting → m ≡ setting)
    × (setting <ℤ pos 0 → m ≡ pos 0)

give_back_margin_mib-IsMargin : (s : ℤ) → IsMargin s (give_back_margin_mib s)
unfolding give_back_margin_mib
give_back_margin_mib-IsMargin (pos zero) =
    (λ e. refl, λ h. absurd (omega arith), λ h. absurd (omega arith))
give_back_margin_mib-IsMargin (pos (suc m)) = (λ e. cc, λ h. refl, λ h. absurd (omega arith))
give_back_margin_mib-IsMargin (negsuc m) = (λ e. cc, λ h. absurd (omega arith), λ h. refl)

-- Nothing of the kind was noted less than `quiet` ago.
abbrev pub IsQuiet : ℕ → ℕ → Option ℕ → Type 0
IsQuiet now quiet o = (at : ℕ) → o ≡ some at → at + quiet ≤ now

is_recent-IsQuiet :
    (now quiet : ℕ) (o : Option ℕ) → 1 ≤ quiet → is_recent now quiet o ≡ false → IsQuiet now quiet o
is_recent-IsQuiet now quiet none p h at e = absurd (some≢none e refl)
is_recent-IsQuiet now quiet (some x) p h at e =
    let k : x ≡ at = cc in let j : x + quiet ≤ now = ground arith in ground arith

-- The memory fits into what is free, and still does when the running leases have faulted in all of
-- theirs: what is free then is the pool less the running memory.
abbrev pub HasRoom : Tick → GiveBackLease → Type 0
HasRoom t l =
    (m : ℤ) × IsMargin t.margin_setting m
    × (l.memory_mb +ℤ t.floor +ℤ m ≤ℤ t.free)
    × (l.memory_mb +ℤ t.floor +ℤ m ≤ℤ t.free -ℤ (t.running -ℤ (t.pool -ℤ t.free)))

-- What the fit test says.
below_both : (x free u : ℤ) → x ≤ℤ free -ℤ max_ℤ (pos 0) u → (x ≤ℤ free) × (x ≤ℤ free -ℤ u)
below_both x free u h = elim (Bool-cases (ltb_ℤ (pos 0) u)) [
  | inl e ↦
      let k : x ≤ℤ free -ℤ u = rw e at h in
      let p = -ℤ_parts free u in let q = ltb_ℤ→lt (pos 0) u e in (omega (arith, p, q, k), k)
  | inr e ↦
      let k : x ≤ℤ free -ℤ pos 0 = rw e at h in
      let p = -ℤ_parts free (pos 0) in
      let r = -ℤ_parts free u in
      let q = ltb_ℤ→ge (pos 0) u e in (omega (arith, p, k), omega (arith, p, q, r, k))
]

fits_room :
    (t : Tick) (s : ℤ) (l : GiveBackLease) → fits_again t s l ≡ true → HasRoom t l × (s ≤ℤ pos 0)
unfolding fits_again
fits_room t s l h =
    let m = give_back_margin_mib t.margin_setting in
    let x = l.memory_mb +ℤ t.floor +ℤ m in
    let r = ltb_ℤ→ge (t.free -ℤ unfaulted t) x (ground arith) in
    let (a, b) = below_both x t.free (t.running -ℤ (t.pool -ℤ t.free)) r in
    ((m, give_back_margin_mib-IsMargin t.margin_setting, a, b), ltb_ℤ→ge (pos 0) s (ground arith))

module _ (shortfall : GiveBackLease → ℤ) (resumes : GiveBackLease → Bool) (t : Tick)
    (skip later : Text → Option ℕ) (ls : List GiveBackLease) (r : GiveBackLease) where
  candidate_room :
      (c : Option GiveBackLease)
      → try_candidate shortfall resumes t skip c ≡ (later, some r)
      → (l : GiveBackLease) × (c ≡ some l)
        × (r ≡ record l { given_back_at = some t.now })
        × HasRoom t l
        × (shortfall l ≤ℤ pos 0)
  candidate_room none e = absurd (ground arith)
  candidate_room (some l) e = elim (Bool-cases (fits_again t (shortfall l) l)) [
    | inr f ↦ absurd (ground arith)
    | inl f ↦ elim (Bool-cases (resumes l)) [
      | inr g ↦ absurd (ground arith)
      | inl g ↦
          let (room, cap) = fits_room t (shortfall l) l f in (l, refl, ground arith, room, cap)
    ]
  ]

  IsQuiet-both :
      give_back_quiet_for t.now t.last_take_back t.last_floor_take_back ≡ false
      → IsQuiet t.now (2 * minute) t.last_take_back
        × IsQuiet t.now (15 * minute) t.last_floor_take_back
  unfolding give_back_quiet_for
  IsQuiet-both h = (
    is_recent-IsQuiet t.now give_back_quiet t.last_take_back (omega arith) (ground arith),
    is_recent-IsQuiet t.now give_back_floor_quiet t.last_floor_take_back (omega arith)
        (ground arith),
  )

  -- When a tick gives a lease back, give-back is on, nothing drains, no create waits, no take-back is
  -- less than 2 minutes old and no floor take-back less than 15. The lease is the longest suspended of
  -- those that may return, and only its give-back time changes. Its memory, the floor and the margin
  -- (1024 MiB if the setting is 0, none if it is negative) fit into what is free, now and when the
  -- running leases have faulted in all of their memory, with the box inside its overcommit cap.
  pub give_back_one_leaves_room :
      give_back_one shortfall resumes t skip ls ≡ (later, some r)
      → (t.off ≡ false)
        × (t.is_draining ≡ false)
        × (t.queue_depth ≡ 0)
        × IsQuiet t.now (2 * minute) t.last_take_back
        × IsQuiet t.now (15 * minute) t.last_floor_take_back
        × (l : GiveBackLease) × IsLongest t.now skip ls (some l)
        × (r ≡ record l { given_back_at = some t.now })
        × HasRoom t l
        × (shortfall l ≤ℤ pos 0)
  unfolding give_back_one
  give_back_one_leaves_room e =
      let quiet = give_back_quiet_for t.now t.last_take_back t.last_floor_take_back in
      elim (Bool-cases (t.off || t.is_draining || quiet || ltb 0 t.queue_depth)) [
        | inl b ↦ absurd (ground arith)
        | inr b ↦
            let k : try_candidate shortfall resumes t skip (give_back_candidate t.now skip ls)
                ≡ (later, some r) =
              rw b at e in
            let (l, c, q, room, cap) = candidate_room (give_back_candidate t.now skip ls) k in
            let (q2, q15) = IsQuiet-both (ground arith) in
            let longest =
              subst (λ o. IsLongest t.now skip ls o) c
                (give_back_candidate-IsLongest t.now skip ls) in
            (ground arith, ground arith, ground arith, q2, q15, l, longest, q, room, cap)
      ]
