-- ===== src/Sizes/Allowed.antt =====
-- The sizes that a create may have, api/sizes.go.
use spoond.Base.{
  ℕ, ◌*◌, ◌/◌, ◌%◌, ◌≡◌, refl, ap, sym, subst, true, false, not, ◌&&◌, ◌||◌, Option, none, some,
  List, [], ◌∷◌, arith, Bool-cases, ◌⊎◌, inl, inr, Any, clash, some≢none,
}
use spoond.Base.Text.{Text, text_eq, text_eq→eq}
use spoond.Base.Int.{ℤ, pos, negsuc, ◌≤ℤ◌, ◌<ℤ◌, ltb_ℤ, ltb_ℤ→ge, ltb_ℤ→lt}
use spoond.Sizes.{
  Preset, Limits, ImageRow, Requested, image_default, sized, invalid, valid_vcpu, valid_memory_mb,
  effective_min_memory_mb, is_odd, given_or, is_same, is_zero, is_over_box, check_size, resolve,
  resolve_preset, requested_size, lookup,
}

abbrev pub IsEven : ℤ → Type 0
IsEven x = (n : ℕ) × (x ≡ pos (2 * n))

-- A size that a VM can have, and that the image, the host and the box have room for. The image asks for
-- its own minimum, or without one for its default memory, at most 512 MiB of it.
pub record IsAllowed (limits : Limits) (img : ImageRow) (vcpu memory : ℤ) : Type 0 where
  pub vcpu_positive : pos 1 ≤ℤ vcpu
  pub vcpu_one_or_even : (vcpu ≡ pos 1) ⊎ IsEven vcpu
  pub vcpu_within : vcpu ≤ℤ limits.max_vcpu
  pub memory_least : pos 128 ≤ℤ memory
  pub memory_even : IsEven memory
  pub own_minimum : pos 0 <ℤ img.min_memory_mb → img.min_memory_mb ≤ℤ memory
  pub no_minimum : img.min_memory_mb ≤ℤ pos 0 → (pos 512 ≤ℤ memory) ⊎ (img.memory_mb ≤ℤ memory)
  pub memory_within : memory ≤ℤ limits.max_memory_mb
  pub box_holds : (total : ℤ) → limits.box_memory ≡ some total → pos 0 <ℤ total → memory ≤ℤ total

IsEven-pos : (n : ℕ) → n % 2 ≡ 0 → IsEven (pos n)
IsEven-pos n h = (n / 2, ap pos (omega arith))

not_odd-IsEven : (x : ℤ) → pos 1 ≤ℤ x → is_odd x ≡ false → IsEven x
unfolding is_odd
not_odd-IsEven (pos n) p h = IsEven-pos n (ground arith)
not_odd-IsEven (negsuc n) p h = absurd (ground arith)

IsEven-not_odd : (x : ℤ) → IsEven x → is_odd x ≡ false
unfolding is_odd
IsEven-not_odd x (n, e) = let k : (2 * n) % 2 ≡ 0 = omega arith in rw e (ground arith)

same_eq : (a b : ℤ) → is_same a b ≡ true → a ≡ b
same_eq a b h = ground arith

vcpu_shape : (v : ℤ) → valid_vcpu v ≡ true → (pos 1 ≤ℤ v) × ((v ≡ pos 1) ⊎ IsEven v)
unfolding valid_vcpu
vcpu_shape v h =
    let p : pos 1 ≤ℤ v = ltb_ℤ→ge v (pos 1) (ground arith) in
    elim (Bool-cases (is_same v (pos 1))) [
      | inl e ↦ (p, inl (same_eq v (pos 1) e))
      | inr e ↦ (p, inr (not_odd-IsEven v p (ground arith)))
    ]

shape_vcpu : (v : ℤ) → pos 1 ≤ℤ v → (v ≡ pos 1) ⊎ IsEven v → valid_vcpu v ≡ true
unfolding valid_vcpu
shape_vcpu v p (inl e) = rw e refl
shape_vcpu v p (inr e) =
    let k = IsEven-not_odd v e in
    let j : ltb_ℤ v (pos 1) ≡ false = ground arith in rw (j, k) (ground arith)

memory_shape : (m : ℤ) → valid_memory_mb m ≡ true → (pos 128 ≤ℤ m) × IsEven m
unfolding valid_memory_mb
memory_shape m h =
    let p : pos 128 ≤ℤ m = ltb_ℤ→ge m (pos 128) (ground arith) in
    (p, not_odd-IsEven m (ground arith) (ground arith))

shape_memory : (m : ℤ) → pos 128 ≤ℤ m → IsEven m → valid_memory_mb m ≡ true
unfolding valid_memory_mb
shape_memory m p e =
    let k = IsEven-not_odd m e in let j : ltb_ℤ m (pos 128) ≡ false = ground arith in rw (j, k) refl

module _ (least memory m : ℤ) where
  abbrev MeetsImage : Type 0
  MeetsImage = (pos 0 <ℤ least → least ≤ℤ m) × (least ≤ℤ pos 0 → (pos 512 ≤ℤ m) ⊎ (memory ≤ℤ m))

  image_met : ltb_ℤ m (effective_min_memory_mb least memory) ≡ false → MeetsImage
  unfolding effective_min_memory_mb
  image_met h = elim (Bool-cases (ltb_ℤ (pos 0) least)) [
    | inl e ↦
        let k : ltb_ℤ m least ≡ false = rw e at h in
        (λ p. ltb_ℤ→ge m least k, λ p. absurd (ground arith))
    | inr e ↦ elim (Bool-cases (ltb_ℤ memory (pos 512))) [
      | inl f ↦
          let k : ltb_ℤ m memory ≡ false = rw (e, f) at h in
          (λ p. absurd (ground arith), λ p. inr (ltb_ℤ→ge m memory k))
      | inr f ↦
          let k : ltb_ℤ m (pos 512) ≡ false = rw (e, f) at h in
          (λ p. absurd (ground arith), λ p. inl (ltb_ℤ→ge m (pos 512) k))
    ]
  ]

  met_image : MeetsImage → ltb_ℤ m (effective_min_memory_mb least memory) ≡ false
  unfolding effective_min_memory_mb
  met_image (own, or_default) = elim (Bool-cases (ltb_ℤ (pos 0) least)) [
    | inl e ↦ let k = own (ltb_ℤ→lt (pos 0) least e) in rw e (ground arith)
    | inr e ↦ elim (or_default (ltb_ℤ→ge (pos 0) least e)) [
      | inl a ↦ elim (Bool-cases (ltb_ℤ memory (pos 512))) [
        | inl f ↦ rw (e, f) (ground arith)
        | inr f ↦ rw (e, f) (ground arith)
      ]
      | inr a ↦ elim (Bool-cases (ltb_ℤ memory (pos 512))) [
        | inl f ↦ rw (e, f) (ground arith)
        | inr f ↦ rw (e, f) (ground arith)
      ]
    ]
  ]

abbrev InBox : ℤ → Option ℤ → Type 0
InBox m o = (total : ℤ) → o ≡ some total → pos 0 <ℤ total → m ≤ℤ total

box_in : (m : ℤ) (o : Option ℤ) → is_over_box m o ≡ false → InBox m o
box_in m none h total e p = absurd (some≢none e refl)
box_in m (some t) h total e p =
    let k : t ≡ total = cc in
    let q : pos 0 <ℤ t = subst (λ x. pos 0 <ℤ x) (sym k) p in
    subst (λ x. m ≤ℤ x) k (ltb_ℤ→ge t m (ground arith))

in_box : (m : ℤ) (o : Option ℤ) → InBox m o → is_over_box m o ≡ false
in_box m none h = refl
in_box m (some t) h = elim (Bool-cases (ltb_ℤ (pos 0) t)) [
  | inr e ↦ rw e refl
  | inl e ↦ let k = h t refl (ltb_ℤ→lt (pos 0) t e) in rw e (ground arith)
]

-- The part that a request stands for: 0 is the image's.
abbrev pub IsPart : ℤ → ℤ → ℤ → Type 0
IsPart fallback n r = ((n ≡ pos 0) × (r ≡ fallback)) ⊎ ((n ≡ pos 0 → ⊥) × (r ≡ n))

abbrev pub IsAsked : ImageRow → ℤ → ℤ → ℤ → ℤ → Type 0
IsAsked img vcpu memory v m = IsPart img.vcpu vcpu v × IsPart img.memory_mb memory m

given_or-IsPart : (fallback n : ℤ) → IsPart fallback n (given_or fallback n)
given_or-IsPart fallback n = elim (Bool-cases (is_zero n)) [
  | inl e ↦ rw e (inl (same_eq n (pos 0) e, refl))
  | inr e ↦ rw e (inr (λ h. let k : is_zero n ≡ true = rw h refl in clash k e, refl))
]

IsPart-given_or : (fallback n r : ℤ) → IsPart fallback n r → given_or fallback n ≡ r
IsPart-given_or fallback n r (inl (z, e)) = rw (z, e) refl
IsPart-given_or fallback n r (inr (z, e)) = elim (Bool-cases (is_zero n)) [
  | inl h ↦ absurd (z (same_eq n (pos 0) h))
  | inr h ↦ rw (h, e) refl
]

module _ (limits : Limits) (img : ImageRow) where
  -- The parts come from the request, or from the preset of that name.
  abbrev pub IsAskedBy : Text → ℤ → ℤ → ℤ → ℤ → Type 0
  IsAskedBy size vcpu memory v m =
      ((size ≡ []) × IsAsked img vcpu memory v m)
      ⊎ ((p : Preset) × Any (λ x. x ≡ p) limits.presets
          × (p.name ≡ size)
          × IsAsked img p.vcpu p.memory_mb v m)

  -- The size is what was asked for, and it is allowed or it is the image's own.
  abbrev Fits : (ℤ → ℤ → Type 0) → Requested → Type 0
  Fits asked image_default = asked img.vcpu img.memory_mb
  Fits asked (sized v m) = asked v m × IsAllowed limits img v m
  Fits asked (invalid e) = Unit

  abbrev pub IsSound : Text → ℤ → ℤ → Requested → Type 0
  IsSound size vcpu memory = Fits (IsAskedBy size vcpu memory)

  Fits-mono :
      (p q : ℤ → ℤ → Type 0) → ((v m : ℤ) → p v m → q v m) → (r : Requested) → Fits p r → Fits q r
  Fits-mono p q f image_default h = f img.vcpu img.memory_mb h
  Fits-mono p q f (sized v m) h = (f v m h.0, h.1)
  Fits-mono p q f (invalid e) h = tt

  passes-IsAllowed :
      (v m : ℤ)
      → valid_vcpu v ≡ true
      → ltb_ℤ limits.max_vcpu v ≡ false
      → valid_memory_mb m ≡ true
      → ltb_ℤ m (effective_min_memory_mb img.min_memory_mb img.memory_mb) ≡ false
      → ltb_ℤ limits.max_memory_mb m ≡ false
      → is_over_box m limits.box_memory ≡ false
      → IsAllowed limits img v m
  passes-IsAllowed v m a b c d f g =
      let (v0, v1) = vcpu_shape v a in
      let (m0, m1) = memory_shape m c in
      let (own, or_default) = image_met img.min_memory_mb img.memory_mb m d in
      record {
        vcpu_positive = v0;
        vcpu_one_or_even = v1;
        vcpu_within = ltb_ℤ→ge limits.max_vcpu v b;
        memory_least = m0;
        memory_even = m1;
        own_minimum = own;
        no_minimum = or_default;
        memory_within = ltb_ℤ→ge limits.max_memory_mb m f;
        box_holds = box_in m limits.box_memory g;
      }

  check_size-Fits :
      (asked : ℤ → ℤ → Type 0) (v m : ℤ) → asked v m → Fits asked (check_size limits img v m)
  unfolding check_size
  check_size-Fits asked v m k = elim (Bool-cases (valid_vcpu v)) [
    | inr e ↦ rw e tt
    | inl a ↦ elim (Bool-cases (ltb_ℤ limits.max_vcpu v)) [
      | inl e ↦ rw (a, e) tt
      | inr b ↦ elim (Bool-cases (valid_memory_mb m)) [
        | inr e ↦ rw (a, b, e) tt
        | inl c ↦
            elim (Bool-cases (ltb_ℤ m (effective_min_memory_mb img.min_memory_mb img.memory_mb))) [
              | inl e ↦ rw (a, b, c, e) tt
              | inr d ↦ elim (Bool-cases (ltb_ℤ limits.max_memory_mb m)) [
                | inl e ↦ rw (a, b, c, d, e) tt
                | inr f ↦ elim (Bool-cases (is_over_box m limits.box_memory)) [
                  | inl e ↦ rw (a, b, c, d, f, e) tt
                  | inr g ↦ rw (a, b, c, d, f, g) (k, passes-IsAllowed v m a b c d f g)
                ]
              ]
            ]
      ]
    ]
  ]

  resolve-Fits : (v m : ℤ) → Fits (IsAsked img v m) (resolve limits img v m)
  unfolding resolve
  resolve-Fits v m =
      let w = given_or img.vcpu v in
      let n = given_or img.memory_mb m in
      let k : IsAsked img v m w n = (given_or-IsPart img.vcpu v, given_or-IsPart img.memory_mb m) in
      elim (Bool-cases (is_same w img.vcpu && is_same n img.memory_mb)) [
        | inl e ↦
            let p : w ≡ img.vcpu = same_eq w img.vcpu (ground arith) in
            let q : n ≡ img.memory_mb = same_eq n img.memory_mb (ground arith) in
            let j : IsAsked img v m img.vcpu img.memory_mb =
              (subst (IsPart img.vcpu v) p k.0, subst (IsPart img.memory_mb m) q k.1) in
            rw e j
        | inr e ↦ rw e (check_size-Fits (IsAsked img v m) w n k)
      ]

  found_preset :
      (ps : List Preset) (size : Text) (p : Preset)
      → lookup ps size ≡ some p
      → Any (λ x. x ≡ p) ps × (p.name ≡ size)
  unfolding lookup
  found_preset [] size p e = absurd (some≢none e refl)
  found_preset (x ∷ ps) size p e = elim (Bool-cases (text_eq x.name size)) [
    | inl f ↦
        let k : ◌≡◌ {A = Option Preset} (some x) (some p) = rw f at e in
        let q : x ≡ p = cc in (inl q, subst (λ y. y.name ≡ size) q (text_eq→eq x.name size f))
    | inr f ↦
        let k : lookup ps size ≡ some p = rw f at e in
        let (a, b) = found_preset ps size p k in (inr a, b)
  ]

  resolve_preset-IsSound :
      (size : Text) (vcpu memory : ℤ) (o : Option Preset)
      → lookup limits.presets size ≡ o
      → IsSound size vcpu memory (resolve_preset limits img size o)
  resolve_preset-IsSound size vcpu memory none e = tt
  resolve_preset-IsSound size vcpu memory (some p) e =
      let (a, b) = found_preset limits.presets size p e in
      Fits-mono (IsAsked img p.vcpu p.memory_mb) (IsAskedBy size vcpu memory)
        (λ v m h. inr (p, a, b, h)) (resolve limits img p.vcpu p.memory_mb)
        (resolve-Fits p.vcpu p.memory_mb)

  by_parts :
      (size : Text) (vcpu memory : ℤ) (r : Requested)
      → text_eq size [] ≡ true
      → Fits (IsAsked img vcpu memory) r
      → IsSound size vcpu memory r
  by_parts size vcpu memory r e =
      Fits-mono (IsAsked img vcpu memory) (IsAskedBy size vcpu memory)
        (λ v m h. inl (text_eq→eq size [] e, h)) r

  default-IsAsked :
      (vcpu memory : ℤ)
      → is_zero vcpu ≡ true
      → is_zero memory ≡ true
      → IsAsked img vcpu memory img.vcpu img.memory_mb
  default-IsAsked vcpu memory v m =
      (inl (same_eq vcpu (pos 0) v, refl), inl (same_eq memory (pos 0) m, refl))

  -- Whatever a create asks for, a size that it gets is what the request, or a preset of the name that
  -- it gives, asks for, with the image's part where a part is 0. It is 1 or an even number of CPUs
  -- and even memory of at least 128 MiB, at least what the image needs and at most what the host and
  -- the box allow; or the image default is given, even outside these limits, and then it is the size
  -- of the image that was asked for.
  pub requested_size-IsSound :
      (size : Text) (vcpu memory : ℤ)
      → IsSound size vcpu memory (requested_size limits img size vcpu memory)
  unfolding requested_size
  requested_size-IsSound size vcpu memory =
      elim (Bool-cases (text_eq size [] && is_zero vcpu && is_zero memory)) [
        | inl e ↦
            let d = default-IsAsked vcpu memory (ground arith) (ground arith) in
            let t : text_eq size [] ≡ true = ground arith in
            let k : IsSound size vcpu memory image_default =
              by_parts size vcpu memory image_default t d in
            rw e k
        | inr a ↦ elim (Bool-cases (ltb_ℤ vcpu (pos 0) || ltb_ℤ memory (pos 0))) [
          | inl e ↦ rw (a, e) tt
          | inr b ↦ elim (Bool-cases (text_eq size [])) [
            | inl e ↦
                let k =
                  by_parts size vcpu memory (resolve limits img vcpu memory) e
                    (resolve-Fits vcpu memory) in
                rw (a, b, e) k
            | inr c ↦ elim (Bool-cases (not (is_zero vcpu) || not (is_zero memory))) [
              | inl e ↦ rw (a, b, c, e) tt
              | inr d ↦
                  let k =
                    resolve_preset-IsSound size vcpu memory (lookup limits.presets size) refl in
                  rw (a, b, c, d) k
            ]
          ]
        ]
      ]

  not_less : (a b : ℤ) → b ≤ℤ a → ltb_ℤ a b ≡ false
  not_less a b h = ground arith

  check_size-allowed : (v m : ℤ) → IsAllowed limits img v m → check_size limits img v m ≡ sized v m
  unfolding check_size
  check_size-allowed v m a =
      let v0 = shape_vcpu v a.vcpu_positive a.vcpu_one_or_even in
      let m0 = shape_memory m a.memory_least a.memory_even in
      let b = not_less limits.max_vcpu v a.vcpu_within in
      let d = met_image img.min_memory_mb img.memory_mb m (a.own_minimum, a.no_minimum) in
      let f = not_less limits.max_memory_mb m a.memory_within in
      let g = in_box m limits.box_memory a.box_holds in rw (v0, b, m0, d, f, g) refl

  differs :
      (v m : ℤ)
      → ((v ≡ img.vcpu) × (m ≡ img.memory_mb) → ⊥)
      → (is_same v img.vcpu && is_same m img.memory_mb) ≡ false
  differs v m h = elim (Bool-cases (is_same v img.vcpu && is_same m img.memory_mb)) [
    | inr e ↦ e
    | inl e ↦ absurd (h (same_eq v img.vcpu (ground arith), same_eq m img.memory_mb (ground arith)))
  ]

  resolve-allowed :
      (vcpu memory v m : ℤ)
      → IsAsked img vcpu memory v m
      → IsAllowed limits img v m
      → ((v ≡ img.vcpu) × (m ≡ img.memory_mb) → ⊥)
      → resolve limits img vcpu memory ≡ sized v m
  unfolding resolve
  resolve-allowed vcpu memory v m (p, q) a h =
      let x = IsPart-given_or img.vcpu vcpu v p in
      let y = IsPart-given_or img.memory_mb memory m q in
      let z = differs v m h in let c = check_size-allowed v m a in rw (x, y, z, c) refl

  not_default :
      (vcpu memory v m : ℤ)
      → IsAsked img vcpu memory v m
      → ((v ≡ img.vcpu) × (m ≡ img.memory_mb) → ⊥)
      → (is_zero vcpu && is_zero memory) ≡ false
  not_default vcpu memory v m (p, q) h = elim (Bool-cases (is_zero vcpu && is_zero memory)) [
    | inr e ↦ e
    | inl e ↦
        let a : is_zero vcpu ≡ true = ground arith in
        let b : is_zero memory ≡ true = ground arith in
        let x : img.vcpu ≡ v = rw a at (IsPart-given_or img.vcpu vcpu v p) in
        let y : img.memory_mb ≡ m = rw b at (IsPart-given_or img.memory_mb memory m q) in
        absurd (h (sym x, sym y))
  ]

  -- A create that names no preset gets exactly the size that it asks for, with the image's part where a
  -- part is 0, if no part is negative, the size is allowed and it is not the image's own. A size is
  -- allowed when it is 1 or an even number of CPUs and even memory of at least 128 MiB, no less than
  -- the image needs, and no more than the host allows and the box holds.
  pub requested_size_complete :
      (vcpu memory v m : ℤ)
      → pos 0 ≤ℤ vcpu
      → pos 0 ≤ℤ memory
      → IsAsked img vcpu memory v m
      → IsAllowed limits img v m
      → ((v ≡ img.vcpu) × (m ≡ img.memory_mb) → ⊥)
      → requested_size limits img [] vcpu memory ≡ sized v m
  unfolding requested_size text_eq
  requested_size_complete vcpu memory v m p q k a h =
      let v0 = not_less vcpu (pos 0) p in
      let m0 = not_less memory (pos 0) q in
      let d = not_default vcpu memory v m k h in
      let r = resolve-allowed vcpu memory v m k a h in rw (d, v0, m0, r) refl
