-- ===== src/TakeBack/Pressure/Safety.antt =====
-- pressureVictim as a whole: whose lease it takes, what it spares, and when it finds none.
use spoond.Base.{
  All-get, ℕ, get_elem?, ◌≡◌, refl, sym, Bool, true, false, not, ◌&&◌, Option, none, some, List, [],
  ◌∷◌, ◌++◌, arith, Bool-cases, clash, All, All-mono, Any, Any-mono, Any-append, ◌⊎◌, inl, inr,
  subst, IsSorted,
}
use spoond.Base.Float.{Float64}
use spoond.TakeBack.{TakeBackLease, TakeBackOwner, TakeBackVictim, tb_ratio}
use spoond.TakeBack.Pressure.{
  is_over, higher, over_ranked, rest_ranked, from_owner, or_else, run_pass, pressure_victim,
}
use spoond.TakeBack.Pressure.Choice.{
  is_open, IsTakenFrom, Taken, from_owner-Taken, Passed, run_pass-Passed,
}
use spoond.TakeBack.Pressure.Ranks.{
  All-split, All-both, over_ranked-IsSorted, over_ranked-Any, over_ranked-All, rest_ranked-Any,
  rest_ranked-All,
}

module _ (F : Float64) where
  open F use {Value, gtb, gtb_irrefl, gtb_trans, gtb_cotrans}

  -- No lease of the owner is open to the passes that spare pins.
  abbrev pub IsShut : TakeBackOwner → Type 0
  IsShut o = All (λ l. is_open false l ≡ false) o.leases

  -- What the victim is at this level, and what had nothing to give before it was taken.
  pub record IsPressureVictim (owners : List TakeBackOwner) (critical : Bool)
      (v : TakeBackVictim Value) : Type 0 where
    pub from : Any (λ o. IsTakenFrom F v.pinned o v × (critical ≡ false → is_over o ≡ true)) owners
    pub floor_spares_pins : critical ≡ false → v.pinned ≡ false
    pub over_first :
        Any (λ o. IsTakenFrom F v.pinned o v × (is_over o ≡ true) × (v.pinned ≡ false)) owners
        ⊎ All (λ o. is_over o ≡ true → IsShut o) owners
    pub pins_last : v.pinned ≡ true → All IsShut owners

  -- Without a victim there is nothing to take: at the floor no owner over its slice has a lease that
  -- is unpinned, not busy and not drained; below the critical level every lease is busy or drained.
  abbrev pub IsBare : List TakeBackOwner → Bool → Type 0
  IsBare owners false = All (λ o. is_over o ≡ true → IsShut o) owners
  IsBare owners true = All (λ o. All (λ l. not l.busy && not l.drained ≡ false) o.leases) owners

  abbrev pub Judged : List TakeBackOwner → Bool → Option (TakeBackVictim Value) → Type 0
  Judged owners critical none = IsBare owners critical
  Judged owners critical (some v) = IsPressureVictim owners critical v

  flag_of :
      (p : Bool) (v : TakeBackVictim Value) (os : List TakeBackOwner)
      → Any (λ o. IsTakenFrom F p o v) os
      → v.pinned ≡ p
  flag_of p v [] h = absurd h
  flag_of p v (o ∷ os) (inl h) = h.flag
  flag_of p v (o ∷ os) (inr h) = flag_of p v os h

  retag :
      (p : Bool) (o : TakeBackOwner) (v : TakeBackVictim Value)
      → IsTakenFrom F p o v
      → IsTakenFrom F v.pinned o v
  retag p o v h = subst (λ q. IsTakenFrom F q o v) (sym h.flag) h

  over_victim :
      (owners : List TakeBackOwner) (critical : Bool) (v : TakeBackVictim Value)
      → Any (λ o. IsTakenFrom F false o v) (over_ranked F owners)
      → IsPressureVictim owners critical v
  over_victim owners critical v h =
      let flag = flag_of false v (over_ranked F owners) h in
      let mine = over_ranked-Any F _ owners h in
      record {
        from = Any-mono _ _ owners (λ o k. (retag false o v k.1, λ _. k.0)) mine;
        floor_spares_pins = λ _. flag;
        over_first = inl (Any-mono _ _ owners (λ o k. (retag false o v k.1, k.0, flag)) mine);
        pins_last = λ t. absurd (clash t flag);
      }

  rest_victim :
      (owners : List TakeBackOwner) (v : TakeBackVictim Value)
      → All (λ o. is_over o ≡ true → IsShut o) owners
      → Any (λ o. IsTakenFrom F false o v) (rest_ranked F owners)
      → IsPressureVictim owners true v
  rest_victim owners v shut h =
      let flag = flag_of false v (rest_ranked F owners) h in
      record {
        from =
            Any-mono _ _ owners (λ o k. (retag false o v k, λ e. absurd (clash refl e)))
              (rest_ranked-Any F _ owners h);
        floor_spares_pins = λ e. absurd (clash refl e);
        over_first = inr shut;
        pins_last = λ t. absurd (clash t flag);
      }

  none_left :
      (owners : List TakeBackOwner)
      → All (λ o. is_over o ≡ true → IsShut o) owners
      → All (λ o. is_over o ≡ false → IsShut o) owners
      → All IsShut owners
  none_left owners =
      All-both _ _ IsShut owners
        (λ o f g. elim (Bool-cases (is_over o)) [ inl e ↦ f e | inr e ↦ g e ])

  pinned_victim :
      (owners : List TakeBackOwner) (v : TakeBackVictim Value)
      → All (λ o. is_over o ≡ true → IsShut o) owners
      → All IsShut owners
      → Any (λ o. IsTakenFrom F true o v) (over_ranked F owners ++ rest_ranked F owners)
      → IsPressureVictim owners true v
  pinned_victim owners v over shut h = record {
    from =
        Any-mono _ _ owners (λ o k. (retag true o v k, λ e. absurd (clash refl e)))
          (elim (Any-append _ (over_ranked F owners) (rest_ranked F owners) h) [
            | inl a ↦ Any-mono _ _ owners (λ o k. k.1) (over_ranked-Any F _ owners a)
            | inr b ↦ rest_ranked-Any F _ owners b
          ]);
    floor_spares_pins = λ e. absurd (clash refl e);
    over_first = inr over;
    pins_last = λ _. shut;
  }

  no_pinned :
      (owners : List TakeBackOwner)
      → All IsShut owners
      → All
          (λ o. All (λ l. is_open true l ≡ false) o.leases)
          (over_ranked F owners ++ rest_ranked F owners)
      → IsBare owners true
  no_pinned owners shut h =
      let r = All-split _ (over_ranked F owners) (rest_ranked F owners) h in
      All-both IsShut _ _ owners both shut (
        All-both _ _ (λ o. All (λ l. is_open true l ≡ false) o.leases) owners
          (λ o f g. elim (Bool-cases (is_over o)) [ inl e ↦ f e | inr e ↦ g e ])
          (over_ranked-All F _ owners r.0) (rest_ranked-All F _ owners r.1))
    where
      each :
          (l : TakeBackLease)
          → is_open false l ≡ false
          → is_open true l ≡ false
          → not l.busy && not l.drained ≡ false
      each l a b = ground arith

      leases_both :
          (ls : List TakeBackLease)
          → All (λ l. is_open false l ≡ false) ls
          → All (λ l. is_open true l ≡ false) ls
          → All (λ l. not l.busy && not l.drained ≡ false) ls
      leases_both [] a b = tt
      leases_both (l ∷ ls) a b = (each l a.0 b.0, leases_both ls a.1 b.1)

      both :
          (o : TakeBackOwner)
          → IsShut o
          → All (λ l. is_open true l ≡ false) o.leases
          → All (λ l. not l.busy && not l.drained ≡ false) o.leases
      both o a b = leases_both o.leases a b

  -- The last two passes, once no owner over its slice has an open unpinned lease.
  late_passes :
      (owners : List TakeBackOwner) (r s : Option (TakeBackVictim Value))
      → All (λ o. is_over o ≡ true → IsShut o) owners
      → Passed F false (rest_ranked F owners) r
      → Passed F true (over_ranked F owners ++ rest_ranked F owners) s
      → Judged owners true (or_else F r s)
  late_passes owners (some v) s over h k = rest_victim owners v over h
  late_passes owners none none over h k =
      no_pinned owners (none_left owners over (rest_ranked-All F _ owners h)) k
  late_passes owners none (some v) over h k =
      pinned_victim owners v over (none_left owners over (rest_ranked-All F _ owners h)) k

  -- At the floor the victim is an unpinned lease of an owner over its slice, and below the critical
  -- level a lease of any owner, never busy or drained. An owner inside its slice, or with none, gives
  -- one only when no owner over its slice has an open unpinned lease, and a pinned lease goes only
  -- when no owner has. No victim is found exactly when the level leaves nothing to take.
  pub pressure_victim-Judged :
      (owners : List TakeBackOwner) (critical : Bool)
      → Judged owners critical (pressure_victim F owners critical)
  unfolding pressure_victim
  pressure_victim-Judged owners critical =
      staged critical (run_pass F false (over_ranked F owners))
        (run_pass-Passed F false (over_ranked F owners)) refl
    where
      staged :
          (c : Bool) (r : Option (TakeBackVictim Value))
          → Passed F false (over_ranked F owners) r
          → run_pass F false (over_ranked F owners) ≡ r
          → Judged owners c (pressure_victim F owners c)
      staged false none h e = rw e (over_ranked-All F IsShut owners h)
      staged false (some v) h e = rw e (over_victim owners false v h)
      staged true (some v) h e = rw e (over_victim owners true v h)
      staged true none h e = rw e (
          late_passes owners (run_pass F false (rest_ranked F owners))
            (run_pass F true (over_ranked F owners ++ rest_ranked F owners))
            (over_ranked-All F IsShut owners h) (run_pass-Passed F false (rest_ranked F owners))
            (run_pass-Passed F true (over_ranked F owners ++ rest_ranked F owners)))

  -- The head of a ranking that has something to give comes first.
  run_pass_ranked :
      (pinned : Bool) (os : List TakeBackOwner) (v : TakeBackVictim Value)
      → IsSorted (higher F) os
      → run_pass F pinned os ≡ some v
      → All
          (λ o.
            All (λ l. is_open pinned l ≡ false) o.leases
            ⊎ (gtb (tb_ratio F o.used_mib o.slice_mib) v.ratio ≡ false))
          os
  unfolding run_pass
  run_pass_ranked pinned [] v s e = tt
  run_pass_ranked pinned (o ∷ os) v s e =
      first (from_owner F pinned o) (from_owner-Taken F pinned o) e
        (λ k. run_pass_ranked pinned os v s.1 k)
    where
      first :
          (r : Option (TakeBackVictim Value))
          → Taken F pinned o r
          → or_else F r (run_pass F pinned os) ≡ some v
          → (run_pass F pinned os ≡ some v
              → All
                  (λ x.
                    All (λ l. is_open pinned l ≡ false) x.leases
                    ⊎ (gtb (tb_ratio F x.used_mib x.slice_mib) v.ratio ≡ false))
                  os)
          → All
              (λ x.
                All (λ l. is_open pinned l ≡ false) x.leases
                ⊎ (gtb (tb_ratio F x.used_mib x.slice_mib) v.ratio ≡ false))
              (o ∷ os)
      first none h e ih = (inl h, ih e)
      first (some w) h e ih =
          let same : w ≡ v = cc in
          let top : v.ratio ≡ tb_ratio F o.used_mib o.slice_mib =
            subst (λ x. x.ratio ≡ tb_ratio F o.used_mib o.slice_mib) same h.ratio_of in
          (inr (rw top (gtb_irrefl _)), All-mono _ _ os (λ x k. inr (rw top k)) s.0)

  ranked_above :
      (owners : List TakeBackOwner) (v : TakeBackVictim Value)
      → pressure_victim F owners false ≡ some v
      → All
          (λ o.
            is_over o ≡ true → IsShut o ⊎ (gtb (tb_ratio F o.used_mib o.slice_mib) v.ratio ≡ false))
          owners
  unfolding pressure_victim
  ranked_above owners v e =
      over_ranked-All F _ owners
        (run_pass_ranked false (over_ranked F owners) v (over_ranked-IsSorted F owners) e)

  -- At the floor, an owner over its slice has no open unpinned lease, or its ratio is not higher
  -- than the ratio of the victim's owner.
  pub pressure_victim_ranked :
      (owners : List TakeBackOwner) (v : TakeBackVictim Value) (i : ℕ) (o : TakeBackOwner)
      → pressure_victim F owners false ≡ some v
      → get_elem? owners i ≡ some o
      → is_over o ≡ true
      → IsShut o ⊎ (gtb (tb_ratio F o.used_mib o.slice_mib) v.ratio ≡ false)
  pressure_victim_ranked owners v i o e at = All-get _ owners i o (ranked_above owners v e) at
