-- ===== src/Sizes.antt =====
-- The size of a lease, sizes/sizes.go and api/sizes.go.
pub mod Allowed
mod Tests
use spoond.Base.{
  ℕ, suc, ◌+◌, ◌%◌, Bool, true, false, not, ◌&&◌, ◌||◌, Option, none, some, List, [], ◌∷◌, ◌==◌,
  if◌then◌else◌,
}
use spoond.Base.Text.{Text, text_eq}
use spoond.Base.Int.{ℤ, pos, negsuc, ltb_ℤ, leb_ℤ}

pub record Preset : Type 0 where
  pub name : Text
  pub vcpu : ℤ
  pub memory_mb : ℤ

abbrev pub min_memory_mb : ℤ
min_memory_mb = pos 128

abbrev pub default_image_min_memory_mb : ℤ
default_image_min_memory_mb = pos 512

abbrev pub default_max_lease_memory_mb : ℤ
default_max_lease_memory_mb = pos 32768

-- Go's n % 2 != 0.
unfoldable pub is_odd : ℤ → Bool
is_odd (pos n) = not (n % 2 == 0)
is_odd (negsuc n) = not (suc n % 2 == 0)

abbrev pub is_same : ℤ → ℤ → Bool
is_same a b = leb_ℤ a b && leb_ℤ b a

abbrev pub is_zero : ℤ → Bool
is_zero a = is_same a (pos 0)

-- ValidVCPU and ValidMemoryMB, as the test whether they return no error.
unfoldable pub valid_vcpu : ℤ → Bool
unfolding is_odd
valid_vcpu vcpu = not (ltb_ℤ vcpu (pos 1) || (not (is_same vcpu (pos 1)) && is_odd vcpu))

unfoldable pub valid_memory_mb : ℤ → Bool
unfolding is_odd
valid_memory_mb mb = not (ltb_ℤ mb min_memory_mb || is_odd mb)

unfoldable pub lookup : List Preset → Text → Option Preset
lookup [] name = none
lookup (p ∷ ps) name = if text_eq p.name name then some p else lookup ps name

unfoldable pub effective_min_memory_mb : ℤ → ℤ → ℤ
effective_min_memory_mb min_memory memory =
    if ltb_ℤ (pos 0) min_memory
    then min_memory
    else if ltb_ℤ memory default_image_min_memory_mb
    then memory
    else default_image_min_memory_mb

-- The image's fields that a size is held against.
pub record ImageRow : Type 0 where
  pub vcpu : ℤ
  pub memory_mb : ℤ
  pub min_memory_mb : ℤ

-- The limits of the host. `box_memory` is the hugepage memory of a box whose capacity is known.
pub record Limits : Type 0 where
  pub presets : List Preset
  pub max_vcpu : ℤ
  pub max_memory_mb : ℤ
  pub box_memory : Option ℤ

-- sizeLimitsOrDefault, of the settings, the default presets and the host's CPU count.
unfoldable pub size_limits_or_default : List Preset → ℤ → Limits → Limits
size_limits_or_default defaults cpus c = record c {
  presets = elim c.presets [ [] ↦ defaults | p ∷ ps ↦ p ∷ ps ];
  max_vcpu = if leb_ℤ c.max_vcpu (pos 0) then cpus else c.max_vcpu;
  max_memory_mb =
      if leb_ℤ c.max_memory_mb (pos 0) then default_max_lease_memory_mb else c.max_memory_mb;
}

-- errInvalidSize, by the message.
pub data InvalidSize : Type 0 where
  negative both_given bad_vcpu vcpu_limit bad_memory below_image memory_limit box_limit :
      InvalidSize
  unknown_size : Text → InvalidSize

-- The size that is created; `image_default` is 0, 0.
pub data Requested : Type 0 where
  image_default : Requested
  sized : (vcpu memory_mb : ℤ) → Requested
  invalid : InvalidSize → Requested

abbrev pub is_over_box : ℤ → Option ℤ → Bool
is_over_box memory none = false
is_over_box memory (some total) = ltb_ℤ (pos 0) total && ltb_ℤ total memory

unfoldable pub check_size : Limits → ImageRow → ℤ → ℤ → Requested
unfolding valid_vcpu valid_memory_mb effective_min_memory_mb
check_size limits img vcpu memory =
    if not (valid_vcpu vcpu)
    then invalid bad_vcpu
    else if ltb_ℤ limits.max_vcpu vcpu
    then invalid vcpu_limit
    else if not (valid_memory_mb memory)
    then invalid bad_memory
    else if ltb_ℤ memory (effective_min_memory_mb img.min_memory_mb img.memory_mb)
    then invalid below_image
    else if ltb_ℤ limits.max_memory_mb memory
    then invalid memory_limit
    else if is_over_box memory limits.box_memory
    then invalid box_limit
    else sized vcpu memory

-- A part that is not given is the image's.
abbrev pub given_or : ℤ → ℤ → ℤ
given_or fallback n = if is_zero n then fallback else n

unfoldable pub resolve : Limits → ImageRow → ℤ → ℤ → Requested
unfolding check_size
resolve limits img vcpu memory =
    let v = given_or img.vcpu vcpu in
    let m = given_or img.memory_mb memory in
    if is_same v img.vcpu && is_same m img.memory_mb
    then image_default
    else check_size limits img v m

abbrev pub resolve_preset : Limits → ImageRow → Text → Option Preset → Requested
resolve_preset limits img size none = invalid (unknown_size size)
resolve_preset limits img size (some p) = resolve limits img p.vcpu p.memory_mb

-- requestedSize, with the limits that sizeLimitsOrDefault gives.
unfoldable pub requested_size : Limits → ImageRow → Text → ℤ → ℤ → Requested
unfolding lookup resolve
requested_size limits img size vcpu memory =
    if text_eq size [] && is_zero vcpu && is_zero memory
    then image_default
    else if ltb_ℤ vcpu (pos 0) || ltb_ℤ memory (pos 0)
    then invalid negative
    else if text_eq size []
    then resolve limits img vcpu memory
    else if not (is_zero vcpu) || not (is_zero memory)
    then invalid both_given
    else resolve_preset limits img size (lookup limits.presets size)
