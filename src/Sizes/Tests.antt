-- ===== src/Sizes/Tests.antt =====
-- A host with two presets and an image of 2 vCPUs and 1024 MiB.
use spoond.Base.{◌≡◌, refl, inl, inr, some, [], ◌∷◌, arith}
use spoond.Base.Text.{codes, text_eq}
use spoond.Base.Int.{pos}
use spoond.Sizes.{
  Preset, Limits, ImageRow, image_default, sized, invalid, requested_size, size_limits_or_default,
  unknown_size, below_image,
}
use spoond.Sizes.Allowed.{IsAllowed, IsSound, requested_size-IsSound, requested_size_complete}

abbrev small : Preset
small = record { name = codes "small"; vcpu = pos 1; memory_mb = pos 512 }

abbrev large : Preset
large = record { name = codes "large"; vcpu = pos 4; memory_mb = pos 8192 }

abbrev unset : Limits
unset = record {
  presets = [];
  max_vcpu = pos 0;
  max_memory_mb = pos 0;
  box_memory = some (pos 16000);
}

sizes_ops : Unit {0}
unfolding requested_size text_eq size_limits_or_default
sizes_ops = tt

abbrev limits : Limits
limits = record {
  presets = small ∷ large ∷ [];
  max_vcpu = pos 8;
  max_memory_mb = pos 32768;
  box_memory = some (pos 16000);
}

filled : size_limits_or_default (small ∷ large ∷ []) (pos 8) unset ≡ limits
unfolding sizes_ops
filled = refl

abbrev image : ImageRow
image = record { vcpu = pos 2; memory_mb = pos 1024; min_memory_mb = pos 0 }

asks_large : requested_size limits image (codes "large") (pos 0) (pos 0) ≡ sized (pos 4) (pos 8192)
unfolding sizes_ops
asks_large = refl

asks_huge :
    requested_size limits image (codes "huge") (pos 0) (pos 0)
    ≡ invalid (unknown_size (codes "huge"))
unfolding sizes_ops
asks_huge = refl

asks_little : requested_size limits image [] (pos 0) (pos 256) ≡ invalid below_image
unfolding sizes_ops
asks_little = refl

asks_default : requested_size limits image [] (pos 2) (pos 0) ≡ image_default
unfolding sizes_ops
asks_default = refl

requested_size-IsSound_example :
    IsSound limits image
      (codes "large")
      (pos 0)
      (pos 0)
      (requested_size limits image (codes "large") (pos 0) (pos 0))
requested_size-IsSound_example = requested_size-IsSound limits image (codes "large") (pos 0) (pos 0)

allowed : IsAllowed limits image (pos 2) (pos 16000)
allowed = record {
  vcpu_positive = omega arith;
  vcpu_one_or_even = inr (1, refl);
  vcpu_within = omega arith;
  memory_least = omega arith;
  memory_even = (8000, refl);
  own_minimum = λ h. absurd (omega arith);
  no_minimum = λ h. inl (omega arith);
  memory_within = omega arith;
  box_holds = λ total e h. let k : pos 16000 ≡ total = cc in ground arith;
}

-- The CPUs of the image, and all the memory of the box.
requested_size_complete_example :
    requested_size limits image [] (pos 0) (pos 16000) ≡ sized (pos 2) (pos 16000)
requested_size_complete_example =
    requested_size_complete limits image (pos 0) (pos 16000) (pos 2) (pos 16000) (omega arith)
      (omega arith) (inl (refl, refl), inr (λ h. ground arith, refl)) allowed (λ h. ground arith)
