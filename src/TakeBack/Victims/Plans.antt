-- ===== src/TakeBack/Victims/Plans.antt =====
-- The whole of memVictims: it ends, and what the rows and the victims are when it does.
use spoond.Base.{
  ℕ, zero, suc, ◌≡◌, ◌<◌, refl, sym, true, false, Option, none, some, List, [], ◌∷◌, ◌++◌, arith,
  Bool-cases, if_cases, some≢none, length, get_elem?, set, All, All-append, All-get, All-mono,
  clash, Any, ◌⊎◌, inl, inr, length-remove_at, sort_stable, subst,
}
use spoond.Base.Text.{Text, text_eq, text_eq→eq, text_eq_refl}
use spoond.Base.Int.{ℤ, pos, ◌+ℤ◌, ◌≤ℤ◌, ◌<ℤ◌, ltb_ℤ, leb_ℤ, int_laws, +ℤ_assoc, ltb_ℤ→lt, ltb_ℤ→ge}
use spoond.Base.Float.{Float64}
use spoond.TakeBack.{TakeBackLease, TakeBackOwner, TakeBackVictim, skipped, tb_ratio}
use spoond.TakeBack.Victims.{
  Choice, Plan, Outcome, out_of_fuel, unmet, planned, lease_count, by_owner, best_from, victim,
  give_up, take, round, plan_loop, req_after_of, at_least, start, outcome_of, victims_of,
  mem_victims,
}
use spoond.TakeBack.Victims.Rows.{
  IsFair, IsChoice, Found, round-Found, KeepsAll, candidate-KeepsAll,
}
use spoond.TakeBack.Victims.Giving.{IsRow, Rows, Rows-refl, give_up-IsRow, Rows-set}

abbrev pub freed_by : {R : Type 0} → List (TakeBackVictim R) → ℤ
freed_by [] = pos 0
freed_by (v ∷ vs) = v.memory_mib +ℤ freed_by vs

module _ (F : Float64) (requester : Text) (req_after : F.Value) where
  open F use {Value, gtb}

  -- A victim names a lease of an owner other than the requester, neither pinned nor drained.
  abbrev pub IsVictimOf : TakeBackOwner → TakeBackVictim Value → Type 0
  IsVictimOf o v =
      (v.owner ≡ o.owner)
      × (text_eq o.owner requester ≡ false)
      × Any (λ l. (v.lease_id ≡ l.id) × (v.memory_mib ≡ l.memory_mib) × (skipped l ≡ false))
          o.leases

  -- The freed total is short of the need by the last victim alone.
  abbrev pub EndsInTime : ℤ → List (TakeBackVictim Value) → Type 0
  EndsInTime need out =
      (out ≡ [])
      ⊎ ((vs : List (TakeBackVictim Value)) × (v : TakeBackVictim Value) × (out ≡ vs ++ v ∷ [])
          × (freed_by vs <ℤ need))

  pub record IsPlan (os : List TakeBackOwner) (need : ℤ) (p : Plan Value) : Type 0 where
    pub rows : Rows F requester req_after os p.work
    pub freed_all : p.freed ≡ freed_by p.out
    pub victims : All (λ v. Any (λ o. IsVictimOf o v) os) p.out
    pub in_time : EndsInTime need p.out

  freed_by-append :
      (vs : List (TakeBackVictim Value)) (v : TakeBackVictim Value)
      → freed_by (vs ++ v ∷ []) ≡ freed_by vs +ℤ v.memory_mib
  freed_by-append [] v = omega int_laws
  freed_by-append (w ∷ vs) v =
      rw (freed_by-append vs v) (sym (+ℤ_assoc w.memory_mib (freed_by vs) v.memory_mib))

  -- The row that holds a lease gives the owner that it came from.
  Rows-victim :
      (os rs : List TakeBackOwner) (i : ℕ) (c : Choice Value)
      → Rows F requester req_after os rs
      → get_elem? rs i ≡ some c.owner
      → IsFair F requester req_after c.owner c.lease_index c.lease
      → Any (λ o. IsVictimOf o (victim F c)) os
  Rows-victim [] [] i c h e f = absurd (some≢none e refl)
  Rows-victim [] (r ∷ rs) i c h e f = absurd h
  Rows-victim (o ∷ os) [] i c h e f = absurd h
  Rows-victim (o ∷ os) (r ∷ rs) zero c h e f =
      inl (found (subst (IsRow F requester req_after o) (some_inj e) h.0))
    where
      some_inj : some r ≡ some c.owner → r ≡ c.owner
      some_inj p = cc

      here :
          (ls : List TakeBackLease)
          → Any (λ m. m ≡ c.lease) ls
          → Any
              (λ l. (c.lease.id ≡ l.id) × (c.lease.memory_mib ≡ l.memory_mib) × (skipped l ≡ false))
              ls
      here [] k = absurd k
      here (l ∷ ls) (inl k) = inl (rw k (refl, refl, f.free))
      here (l ∷ ls) (inr k) = inr (here ls k)

      found : IsRow F requester req_after o c.owner → IsVictimOf o (victim F c)
      found q = (
        q.same_owner,
        rw (← q.same_owner) f.other,
        here o.leases (All-get _ c.owner.leases c.lease_index c.lease q.own f.at),
      )
  Rows-victim (o ∷ os) (r ∷ rs) (suc i) c h e f = inr (Rows-victim os rs i c h.1 e f)

  take-IsPlan :
      (os : List TakeBackOwner) (need : ℤ) (p : Plan Value) (c : Choice Value)
      → p.freed <ℤ need
      → IsPlan os need p
      → IsChoice F requester req_after p.work c
      → IsPlan os need (take F p c)
  take-IsPlan os need p c short h k = record {
    rows =
        Rows-set F requester req_after os p.work c.owner_index c.owner (give_up F c) k.owner_at
          (λ o. give_up-IsRow F requester req_after o c k.fair) h.rows;
    freed_all = rw (freed_by-append p.out (victim F c), h.freed_all) refl;
    victims =
        All-append _ p.out (victim F c ∷ []) h.victims
          (Rows-victim os p.work c.owner_index c h.rows k.owner_at k.fair, tt);
    in_time = inr (p.out, victim F c, refl, subst (λ x. x <ℤ need) h.freed_all short);
  }

  lease_count-set :
      (os : List TakeBackOwner) (i : ℕ) (o q : TakeBackOwner)
      → get_elem? os i ≡ some o
      → suc (length q.leases) ≡ length o.leases
      → suc (lease_count (set os i q)) ≡ lease_count os
  unfolding lease_count
  lease_count-set [] i o q e h = absurd (some≢none e refl)
  lease_count-set (x ∷ os) zero o q e h = let same : x ≡ o = cc in rw same (omega arith)
  lease_count-set (x ∷ os) (suc i) o q e h = omega (arith, lease_count-set os i o q e h)

  -- What the loop returns: a plan that meets the need, or nil when a plan that does not has no
  -- candidate left. The fuel does not run out.
  abbrev pub Explains : List TakeBackOwner → ℤ → Outcome Value → Type 0
  Explains os need out_of_fuel = ⊥
  Explains os need unmet =
      (p : Plan Value) × IsPlan os need p
      × (p.freed <ℤ need)
      × All (KeepsAll F requester req_after) p.work
  Explains os need (planned p) = IsPlan os need p × (need ≤ℤ p.freed)

  plan_loop-Explains :
      (os : List TakeBackOwner) (need : ℤ) (fuel : ℕ) (p : Plan Value)
      → lease_count p.work < fuel
      → IsPlan os need p
      → Explains os need (plan_loop F requester req_after need fuel p)
  unfolding plan_loop
  plan_loop-Explains os need zero p m h = absurd (omega arith)
  plan_loop-Explains os need (suc fuel) p m h = elim (Bool-cases (ltb_ℤ p.freed need)) [
    | inr e ↦ rw (e, plan_loop) (h, ltb_ℤ→ge p.freed need e)
    | inl e ↦
        rw (e, plan_loop)
          (onward (best_from F requester req_after 0 p.work none)
            (round-Found F requester req_after p.work) (ltb_ℤ→lt p.freed need e)
            (λ q. plan_loop-Explains os need fuel q))
  ]
    where
      onward :
          (r : Option (Choice Value))
          → Found F requester req_after p.work r
          → p.freed <ℤ need
          → ((q : Plan Value)
              → lease_count q.work < fuel
              → IsPlan os need q
              → Explains os need (plan_loop F requester req_after need fuel q))
          → Explains os need (round F (plan_loop F requester req_after need fuel) p r)
      onward none k short ih =
          (p, h, short, All-mono _ _ p.work (λ o e. candidate-KeepsAll F requester req_after o e) k)
      onward (some c) k short ih =
          ih (take F p c)
            (omega (
              arith,
              lease_count-set p.work c.owner_index c.owner (give_up F c) k.owner_at
                  (length-remove_at c.owner.leases c.lease_index c.lease k.fair.at),
            ))
            (take-IsPlan os need p c short h k)

  start-IsPlan :
      (os : List TakeBackOwner) (need : ℤ)
      → IsPlan os need (record { work = os; freed = pos 0; out = [] })
  start-IsPlan os need = record {
    rows = Rows-refl F requester req_after os;
    freed_all = refl;
    victims = tt;
    in_time = inl refl;
  }

module _ (F : Float64) (requester : Text) (n : ℤ) where
  open F use {Value}

  -- What the last row of the requester gives with `n` more, or `acc` if there is no row.
  abbrev IsLastOf : List TakeBackOwner → Value → Value → Type 0
  IsLastOf os acc v =
      (All (λ o. o.owner ≡ requester → ⊥) os × (v ≡ acc))
      ⊎ ((xs : List TakeBackOwner) × (o : TakeBackOwner) × (ys : List TakeBackOwner) × (os
            ≡ xs ++ o ∷ ys)
          × (o.owner ≡ requester)
          × All (λ x. x.owner ≡ requester → ⊥) ys
          × (v ≡ tb_ratio F (o.used_mib +ℤ n) o.slice_mib))

  later-IsLastOf :
      (x : TakeBackOwner) (os : List TakeBackOwner) (acc v : Value)
      → text_eq x.owner requester ≡ false
      → IsLastOf os acc v
      → IsLastOf (x ∷ os) acc v
  later-IsLastOf x os acc v e (inl (all, k)) =
      inl ((λ q. clash (rw q (text_eq_refl requester)) e, all), k)
  later-IsLastOf x os acc v e (inr (xs, o, ys, k, a, b, c)) =
      inr (x ∷ xs, o, ys, rw k refl, a, b, c)

  own-IsLastOf :
      (x : TakeBackOwner) (os : List TakeBackOwner) (acc v : Value)
      → text_eq x.owner requester ≡ true
      → IsLastOf os (tb_ratio F (x.used_mib +ℤ n) x.slice_mib) v
      → IsLastOf (x ∷ os) acc v
  own-IsLastOf x os acc v e (inl (all, k)) =
      inr ([], x, os, refl, text_eq→eq x.owner requester e, all, k)
  own-IsLastOf x os acc v e (inr (xs, o, ys, k, a, b, c)) = inr (x ∷ xs, o, ys, rw k refl, a, b, c)

  req_after_of-IsLastOf :
      (os : List TakeBackOwner) (acc : Value) → IsLastOf os acc (req_after_of F requester n os acc)
  unfolding req_after_of
  req_after_of-IsLastOf [] acc = inl (tt, refl)
  req_after_of-IsLastOf (o ∷ os) acc =
      let own = tb_ratio F (o.used_mib +ℤ n) o.slice_mib in
      if_cases (λ a. IsLastOf (o ∷ os) acc (req_after_of F requester n os a))
        (text_eq o.owner requester) own acc
        (λ e. own-IsLastOf o os acc _ e (req_after_of-IsLastOf os own))
        (λ e. later-IsLastOf o os acc _ e (req_after_of-IsLastOf os acc))

module _ (F : Float64) (owners : List TakeBackOwner) (requester : Text) (need request : ℤ) where
  open F use {Value}

  -- The requester's ratio with its whole request, the larger of the need and the request, on top of
  -- its last row; the ratio 0 if it has no row.
  abbrev pub IsRatioAfter : Value → Type 0
  IsRatioAfter v =
      (n : ℤ) × (need ≤ℤ n)
      × (request ≤ℤ n)
      × ((n ≡ need) ⊎ (n ≡ request))
      × IsLastOf F requester n owners (tb_ratio F (pos 0) (pos 0)) v

  abbrev pub IsMet : Value → List (TakeBackVictim Value) → Type 0
  IsMet v vs =
      (p : Plan Value) × IsPlan F requester v (sort_stable by_owner owners) need p
      × (p.out ≡ vs)
      × (need ≤ℤ freed_by vs)

  abbrev pub IsUnmet : Value → Type 0
  IsUnmet v =
      (p : Plan Value) × IsPlan F requester v (sort_stable by_owner owners) need p
      × (freed_by p.out <ℤ need)
      × All (KeepsAll F requester v) p.work

  abbrev pub req_after : Value
  req_after = req_after_of F requester (at_least F need request) owners (tb_ratio F (pos 0) (pos 0))

  ratio_after : (n : ℤ) → at_least F need request ≡ n → IsRatioAfter req_after
  ratio_after n e =
      let k = at_least F need request in
      (
        k,
        upper.0,
        upper.1,
        which,
        req_after_of-IsLastOf F requester k owners (tb_ratio F (pos 0) (pos 0)),
      )
    where
      upper : (need ≤ℤ at_least F need request) × (request ≤ℤ at_least F need request)
      upper = elim (Bool-cases (ltb_ℤ request need)) [
        | inl e ↦ let k = ltb_ℤ→lt request need e in rw e (omega arith, omega arith)
        | inr e ↦ let k = ltb_ℤ→ge request need e in rw e (omega arith, omega arith)
      ]

      which : (at_least F need request ≡ need) ⊎ (at_least F need request ≡ request)
      which = elim (Bool-cases (ltb_ℤ request need)) [
        | inl e ↦ rw e (inl refl)
        | inr e ↦ rw e (inr refl)
      ]

  -- The same at the ratio that the code computes.
  pub mem_victims_chosen :
      pos 0 <ℤ need
      → (vs : List (TakeBackVictim Value)) × (mem_victims F owners requester need request ≡ some vs)
        × (IsMet req_after vs ⊎ ((vs ≡ []) × IsUnmet req_after))
  unfolding mem_victims
  mem_victims_chosen h =
      let no_need : leb_ℤ need (pos 0) ≡ false = ground arith in
      rw no_need (
        read (outcome_of F owners requester need request) (
          plan_loop-Explains F requester req_after (sort_stable by_owner owners) need
            (suc (lease_count (sort_stable by_owner owners))) (start F owners) (omega arith)
            (start-IsPlan F requester req_after (sort_stable by_owner owners) need)))
    where
      read :
          (r : Outcome Value)
          → Explains F requester req_after (sort_stable by_owner owners) need r
          → (vs : List (TakeBackVictim Value)) × (victims_of F r ≡ some vs)
            × (IsMet req_after vs ⊎ ((vs ≡ []) × IsUnmet req_after))
      read out_of_fuel k = absurd k
      read unmet (p, k, short, stuck) =
          ([], refl, inr (refl, (p, k, subst (λ x. x <ℤ need) k.freed_all short, stuck)))
      read (planned p) (k, met) =
          (p.out, refl, inl (p, k, refl, subst (λ x. need ≤ℤ x) k.freed_all met))

  -- For a need above 0 the selection ends. Either its victims free the need, and stop short of it
  -- without the last one; or it returns no victim, and a plan of legal victims that still misses the
  -- need has left no owner with a lease that may go: each is the requester, has no slice or is within
  -- it, or every lease is pinned, drained, or too large to leave the owner above the requester. In
  -- both cases every row comes from its owner's by leases that were neither pinned nor drained, with
  -- their memory taken off the use, and each owner that gave a lease is not the requester and ends
  -- with a ratio above the requester's, which counts the larger of the need and the whole request.
  pub mem_victims_plan :
      pos 0 <ℤ need
      → (v : Value) × IsRatioAfter v
        × (vs : List (TakeBackVictim Value)) × (mem_victims F owners requester need request
            ≡ some vs)
        × (IsMet v vs ⊎ ((vs ≡ []) × IsUnmet v))
  mem_victims_plan h =
      let (vs, e, k) = mem_victims_chosen h in
      (req_after, ratio_after (at_least F need request) refl, vs, e, k)
