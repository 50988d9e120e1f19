-- ===== src/BoxFull/Borrower.antt =====
-- When a create is refused because its owner borrows most, api/admit_memory.go.
use spoond.Base.{◌≡◌, true, false, Option, none, some, List, ◌⊎◌, All, Any}
use spoond.Base.Text.{Text, text_eq}
use spoond.Base.Int.{ℤ, pos, ◌≤ℤ◌, ◌<ℤ◌}
use spoond.Base.Float.{Float64}
use spoond.TakeBack.{TakeBackOwner, tb_ratio}
use spoond.BoxFull.{MemBoxFullError, own_leases_lru, after_request}

module _ (F : Float64) (owners : List TakeBackOwner) (requester : Text) (request : ℤ) where
  open F use {Value, quot, gtb}

  -- Another owner whose ratio is above `after`.
  abbrev pub IsAbove : Value → TakeBackOwner → Type 0
  IsAbove after o =
      (text_eq o.owner requester ≡ false) × (gtb (tb_ratio F o.used_mib o.slice_mib) after ≡ true)

  abbrev pub IsBelow : Value → TakeBackOwner → Type 0
  IsBelow after o =
      (text_eq o.owner requester ≡ true) ⊎ (gtb (tb_ratio F o.used_mib o.slice_mib) after ≡ false)

  -- The requester `o` fills its slice, goes over it, and nobody else is further over.
  pub record IsBiggest (o : TakeBackOwner) : Type 0 where
    pub has_slice : pos 0 <ℤ o.slice_mib
    pub fills_slice : o.slice_mib ≤ℤ o.used_mib
    pub goes_over : gtb (after_request F o request) (quot (pos 1) (pos 1)) ≡ true
    pub others_below : All (IsBelow (after_request F o request)) owners

  -- Why a requester with the row `o` is not refused.
  abbrev pub IsSpared : TakeBackOwner → Type 0
  IsSpared o =
      (o.slice_mib ≤ℤ pos 0)
      ⊎ ((o.used_mib <ℤ o.slice_mib)
          ⊎ ((gtb (after_request F o request) (quot (pos 1) (pos 1)) ≡ false)
              ⊎ Any (IsAbove (after_request F o request)) owners))

  abbrev pub Verdict : Option TakeBackOwner → Option MemBoxFullError → Type 0
  Verdict none none = Unit
  Verdict none (some e) = ⊥
  Verdict (some o) none = IsSpared o
  Verdict (some o) (some e) =
      IsBiggest o
      × (e ≡ record {
        owner = requester;
        used_mib = o.used_mib;
        slice_mib = o.slice_mib;
        request_mib = request;
        leases = own_leases_lru o.leases;
      })
