-- ===== src/TakeBack/Victims/Giving.antt =====
-- How the row of an owner comes from its row before, in memVictims.
use mathlib.Core.List.{Perm, perm_middle}
use mathlib.Core.List.Perm
use spoond.Base.{
  ℕ, zero, suc, ◌≡◌, refl, true, false, some, List, [], ◌∷◌, ◌++◌, some≢none, get_elem?, set,
  remove_at, All, All-remove_at, Any, ◌⊎◌, inl, inr, subst,
}
use spoond.Base.Text.{Text, text_eq}
use spoond.Base.Int.{◌+ℤ◌, int_laws, move_term}
use spoond.Base.Float.{Float64}
use spoond.TakeBack.{TakeBackLease, TakeBackOwner, skipped, tb_ratio, stays_above}
use spoond.TakeBack.Victims.{Choice, give_up}
use spoond.TakeBack.Victims.Rows.{total, IsFair}

module _ (F : Float64) (requester : Text) (req_after : F.Value) where
  open F use {Value, gtb}

  -- How a row of the plan comes from the owner's row before: some leases were taken from it, none
  -- pinned or drained, their memory was taken off its use, and unless nothing was taken the owner is
  -- not the requester and its ratio is still above the requester's ratio after the request.
  pub record IsRow (old row : TakeBackOwner) : Type 0 where
    pub taken : List TakeBackLease
    pub same_owner : row.owner ≡ old.owner
    pub same_slice : row.slice_mib ≡ old.slice_mib
    pub split : Perm old.leases (taken ++ row.leases)
    pub own : All (λ l. Any (λ m. m ≡ l) old.leases) row.leases
    pub used : row.used_mib +ℤ total taken ≡ old.used_mib
    pub free : All (λ l. skipped l ≡ false) taken
    pub fair :
        (taken ≡ [])
        ⊎ ((text_eq old.owner requester ≡ false)
            × (gtb (tb_ratio F row.used_mib row.slice_mib) req_after ≡ true))

  abbrev pub Rows : List TakeBackOwner → List TakeBackOwner → Type 0
  Rows [] [] = Unit
  Rows [] (_ ∷ _) = ⊥
  Rows (_ ∷ _) [] = ⊥
  Rows (o ∷ os) (r ∷ rs) = IsRow o r × Rows os rs

  pub own_leases :
      (xs ls : List TakeBackLease)
      → ((l : TakeBackLease) → Any (λ m. m ≡ l) ls → Any (λ m. m ≡ l) xs)
      → All (λ l. Any (λ m. m ≡ l) xs) ls
  own_leases xs [] f = tt
  own_leases xs (l ∷ ls) f = (f l (inl refl), own_leases xs ls (λ m k. f m (inr k)))

  pub IsRow-refl : (o : TakeBackOwner) → IsRow o o
  IsRow-refl o = record {
    taken = [];
    same_owner = refl;
    same_slice = refl;
    split = Perm.refl o.leases;
    own = own_leases o.leases o.leases (λ l k. k);
    used = omega int_laws;
    free = tt;
    fair = inl refl;
  }

  pub Rows-refl : (os : List TakeBackOwner) → Rows os os
  Rows-refl [] = tt
  Rows-refl (o ∷ os) = (IsRow-refl o, Rows-refl os)

  pub remove_at-perm :
      (ls : List TakeBackLease) (i : ℕ) (l : TakeBackLease)
      → get_elem? ls i ≡ some l
      → Perm ls (l ∷ remove_at ls i)
  remove_at-perm [] i l e = absurd (some≢none e refl)
  remove_at-perm (x ∷ ls) zero l e =
      subst (λ y. Perm (x ∷ ls) (y ∷ ls)) (some_inj e) (Perm.refl (x ∷ ls))
    where
      some_inj : some x ≡ some l → x ≡ l
      some_inj p = cc
  remove_at-perm (x ∷ ls) (suc i) l e =
      Perm.trans (Perm.cons x (remove_at-perm ls i l e)) (Perm.swap l x (remove_at ls i))

  -- Giving up the chosen lease keeps the relation to the row before.
  pub give_up-IsRow :
      (old : TakeBackOwner) (c : Choice Value)
      → IsFair F requester req_after c.owner c.lease_index c.lease
      → IsRow old c.owner
      → IsRow old (give_up F c)
  unfolding stays_above
  give_up-IsRow old c f r = record {
    taken = c.lease ∷ r.taken;
    same_owner = r.same_owner;
    same_slice = r.same_slice;
    split = Perm.trans r.split (
        Perm.trans
          (Perm.append_left r.taken (remove_at-perm c.owner.leases c.lease_index c.lease f.at))
          (perm_middle r.taken (remove_at c.owner.leases c.lease_index)));
    own = All-remove_at _ c.owner.leases c.lease_index r.own;
    used = move_term c.owner.used_mib (total r.taken) c.lease.memory_mib old.used_mib r.used;
    free = (f.free, r.free);
    fair = inr (rw (← r.same_owner) f.other, f.stays);
  }

  pub Rows-set :
      (os rs : List TakeBackOwner) (i : ℕ) (r s : TakeBackOwner)
      → get_elem? rs i ≡ some r
      → ((o : TakeBackOwner) → IsRow o r → IsRow o s)
      → Rows os rs
      → Rows os (set rs i s)
  Rows-set [] [] i r s e f h = tt
  Rows-set [] (x ∷ rs) i r s e f h = absurd h
  Rows-set (o ∷ os) [] i r s e f h = absurd h
  Rows-set (o ∷ os) (x ∷ rs) zero r s e f h = (f o (subst (IsRow o) (some_inj e) h.0), h.1)
    where
      some_inj : some x ≡ some r → x ≡ r
      some_inj p = cc
  Rows-set (o ∷ os) (x ∷ rs) (suc i) r s e f h = (h.0, Rows-set os rs i r s e f h.1)
