-- ===== src/TakeBack/Pressure/Ranks.antt =====
-- The rankings of pressureVictim: who stands in them, and that they are sorted by ratio.
use spoond.Base.{
  ◌≡◌, true, false, List, [], ◌∷◌, ◌++◌, arith, Bool-cases, clash, keep, keep-All_test, All-keep,
  All, Any, Any-keep, Any-and, Any-append, inl, inr, sort_stable, IsSorted, All-sort_stable,
  Any-sort_stable, sort_stable-IsSorted,
}
use spoond.Base.Float.{Float64}
use spoond.TakeBack.{TakeBackOwner}
use spoond.TakeBack.Pressure.{
  is_no_slice, is_over, is_inside, higher, more_used, over_ranked, rest_ranked,
}

pub All-split :
    (P : TakeBackOwner → Type 0) (xs ys : List TakeBackOwner)
    → All P (xs ++ ys)
    → All P xs × All P ys
All-split P [] ys h = (tt, h)
All-split P (x ∷ xs) ys h = let r = All-split P xs ys h.1 in ((h.0, r.0), r.1)

pub All-both :
    (P Q R : TakeBackOwner → Type 0) (xs : List TakeBackOwner)
    → ((o : TakeBackOwner) → P o → Q o → R o)
    → All P xs
    → All Q xs
    → All R xs
All-both P Q R [] f h k = tt
All-both P Q R (x ∷ xs) f h k = (f x h.0 k.0, All-both P Q R xs f h.1 k.1)

module _ (F : Float64) where
  open F use {Value, gtb, gtb_irrefl, gtb_trans, gtb_cotrans}

  higher_asym : (x y : TakeBackOwner) → higher F x y ≡ true → higher F y x ≡ false
  higher_asym x y h = elim (Bool-cases (higher F y x)) [
    | inl k ↦ absurd (clash (gtb_trans _ _ _ h k) (gtb_irrefl _))
    | inr k ↦ k
  ]

  pub over_ranked-IsSorted :
      (owners : List TakeBackOwner) → IsSorted (higher F) (over_ranked F owners)
  unfolding over_ranked
  over_ranked-IsSorted owners =
      sort_stable-IsSorted (higher F) higher_asym (λ x y z. gtb_cotrans _ _ _) (keep is_over owners)

  pub over_ranked-Any :
      (P : TakeBackOwner → Type 0) (owners : List TakeBackOwner)
      → Any P (over_ranked F owners)
      → Any (λ o. (is_over o ≡ true) × P o) owners
  unfolding over_ranked
  over_ranked-Any P owners h = Any-keep _ is_over owners (
      Any-and (λ o. is_over o ≡ true) P (keep is_over owners) (keep-All_test is_over owners)
        (Any-sort_stable (higher F) P (keep is_over owners) h))

  pub over_ranked-All :
      (P : TakeBackOwner → Type 0) (owners : List TakeBackOwner)
      → All P (over_ranked F owners)
      → All (λ o. is_over o ≡ true → P o) owners
  unfolding over_ranked
  over_ranked-All P owners h =
      All-keep P is_over owners (All-sort_stable (higher F) P (keep is_over owners) h)

  pub rest_ranked-Any :
      (P : TakeBackOwner → Type 0) (owners : List TakeBackOwner)
      → Any P (rest_ranked F owners)
      → Any P owners
  unfolding rest_ranked
  rest_ranked-Any P owners h =
      elim (Any-append P (sort_stable (higher F) (keep is_inside owners)) _ h) [
        | inl a ↦
            Any-keep P is_inside owners (Any-sort_stable (higher F) P (keep is_inside owners) a)
        | inr b ↦
            Any-keep P is_no_slice owners (Any-sort_stable more_used P (keep is_no_slice owners) b)
      ]

  pub rest_ranked-All :
      (P : TakeBackOwner → Type 0) (owners : List TakeBackOwner)
      → All P (rest_ranked F owners)
      → All (λ o. is_over o ≡ false → P o) owners
  unfolding rest_ranked
  rest_ranked-All P owners h =
      let r = All-split P (sort_stable (higher F) (keep is_inside owners)) _ h in
      All-both (λ o. is_inside o ≡ true → P o) (λ o. is_no_slice o ≡ true → P o) _ owners
        (λ o f g e. either o f g e)
        (All-keep P is_inside owners (All-sort_stable (higher F) P (keep is_inside owners) r.0))
        (All-keep P is_no_slice owners (All-sort_stable more_used P (keep is_no_slice owners) r.1))
    where
      either :
          (o : TakeBackOwner)
          → (is_inside o ≡ true → P o)
          → (is_no_slice o ≡ true → P o)
          → is_over o ≡ false
          → P o
      either o f g e = elim (Bool-cases (is_no_slice o)) [ inl n ↦ g n | inr n ↦ f (ground arith) ]
