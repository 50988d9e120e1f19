-- ===== src/LowMemory/Warm.antt =====
-- dropOnePoolSandbox, api/pressure.go: the warm-pool sandbox that the low-memory loop drops.
pub mod Largest
pub mod Keys
pub mod Drop
use spoond.Base.{
  ◌≡◌, Bool, true, false, not, ◌&&◌, ◌||◌, Option, none, some, List, [], ◌∷◌, if◌then◌else◌,
}
use spoond.Base.Text.{Text, text_eq}
use spoond.Base.Int.{ℤ, pos, ltb_ℤ}

-- store.pool, in the order in which the loop ranges over it, and store.poolMiB. Each image's
-- sandboxes stand oldest first.
pub record WarmPool : Type 0 where
  pub pool : List (Text × List Text)
  pub pool_mib : List (Text × ℤ)

-- A missing key reads as the zero value.
unfoldable pub ids_of : Text → List (Text × List Text) → List Text
ids_of img [] = []
ids_of img ((name, ids) ∷ rows) = if text_eq name img then ids else ids_of img rows

unfoldable pub mib_entry : Text → List (Text × ℤ) → ℤ
mib_entry id [] = pos 0
mib_entry id ((k, n) ∷ es) = if text_eq k id then n else mib_entry id es

-- Go's delete and assignment of an existing key.
unfoldable pub delete_key {ℓ} : {A : Type ℓ} → Text → List (Text × A) → List (Text × A)
delete_key key [] = []
delete_key key ((k, a) ∷ es) =
    if text_eq k key then delete_key key es else (k, a) ∷ delete_key key es

unfoldable pub set_ids : Text → List Text → List (Text × List Text) → List (Text × List Text)
set_ids img kept [] = []
set_ids img kept ((name, ids) ∷ rows) =
    if text_eq name img then (name, kept) ∷ rows else (name, ids) ∷ set_ids img kept rows

-- ids[len(ids)-1]; `none` is an empty list.
unfoldable pub newest : List Text → Option Text
newest [] = none
newest (x ∷ []) = some x
newest (x ∷ y ∷ xs) = newest (y ∷ xs)

-- ids[:len(ids)-1]
unfoldable pub but_newest : List Text → List Text
but_newest [] = []
but_newest (x ∷ []) = []
but_newest (x ∷ y ∷ xs) = x ∷ but_newest (y ∷ xs)

-- The loop body: the image and the id so far, both empty at first.
abbrev pub larger_of : List (Text × ℤ) → Text → Option Text → Text × Text → Text × Text
larger_of mibs name none best = best
larger_of mibs name (some id) best =
    if text_eq best.1 [] || ltb_ℤ (mib_entry best.1 mibs) (mib_entry id mibs)
    then (name, id)
    else best

unfoldable pub pick_largest : List (Text × ℤ) → List (Text × List Text) → Text × Text → Text × Text
unfolding newest mib_entry
pick_largest mibs [] best = best
pick_largest mibs ((name, ids) ∷ rows) best =
    pick_largest mibs rows (larger_of mibs name (newest ids) best)

-- The list goes back without its newest, or its image goes.
abbrev pub put_back : Text → List Text → List (Text × List Text) → List (Text × List Text)
put_back img [] rows = delete_key img rows
put_back img (x ∷ xs) rows = set_ids img (x ∷ xs) rows

-- What the drop returns: the sandbox, its MiB, and the stock without it.
pub record Dropped : Type 0 where
  pub image : Text
  pub id : Text
  pub freed_mib : ℤ
  pub left : WarmPool

abbrev pub drop_picked : WarmPool → Text × Text → Option Dropped
drop_picked s (img, id) =
    if text_eq id []
    then none
    else some (record {
      image = img;
      id = id;
      freed_mib = mib_entry id s.pool_mib;
      left = record {
        pool = put_back img (but_newest (ids_of img s.pool)) s.pool;
        pool_mib = delete_key id s.pool_mib;
      };
    })

-- dropOnePoolSandbox up to the substrate's delete; `none` is an empty pool.
unfoldable pub drop_one_pool_sandbox : WarmPool → Option Dropped
unfolding pick_largest ids_of mib_entry delete_key set_ids but_newest
drop_one_pool_sandbox s = drop_picked s (pick_largest s.pool_mib s.pool ([], []))
