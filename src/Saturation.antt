-- ===== src/Saturation.antt =====
-- The saturation gate, api/saturation.go: the host's pressure files, their cached readings, and the
-- refusal of new work.
pub mod Backed
mod Tests
use spoond.Base.{
  ℕ, zero, suc, ◌+◌, Bool, true, false, not, ◌&&◌, ◌||◌, Option, none, some, List, [], ◌∷◌, ltb,
  leb, ◌==◌, if◌then◌else◌,
}
use spoond.Base.Text.{Text, codes, text_eq}
use spoond.Base.Int.{pos}
use spoond.Base.Float.{Float64}

abbrev pub pressure_cache_ttl : ℕ
pressure_cache_ttl = 2_000_000_000

-- unicode.IsSpace on ASCII.
abbrev pub is_blank : ℕ → Bool
is_blank c = (leb 9 c && leb c 13) || c == 32

-- A byte in front of the fields of the rest: it joins the first one if the two touch.
abbrev pub glue : ℕ → Bool → List Text → List Text
glue c true (f ∷ fs) = (c ∷ f) ∷ fs
glue c true [] = (c ∷ []) ∷ []
glue c false fs = (c ∷ []) ∷ fs

abbrev pub touches : Text → Bool
touches [] = false
touches (c ∷ s) = not (is_blank c)

-- strings.Fields
unfoldable pub fields : Text → List Text
fields [] = []
fields (c ∷ s) = let rest = fields s in if is_blank c then rest else glue c (touches s) rest

-- strings.CutPrefix
unfoldable pub cut_prefix : Text → Text → Option Text
cut_prefix [] s = some s
cut_prefix (c ∷ p) [] = none
cut_prefix (c ∷ p) (d ∷ s) = let rest = cut_prefix p s in if c == d then rest else none

-- The first field `avg10=` of a line.
unfoldable pub avg10_of : List Text → Option Text
unfolding cut_prefix
avg10_of [] = none
avg10_of (kv ∷ kvs) = elim (cut_prefix (codes "avg10=") kv) [
  | some v ↦ some v
  | none ↦ avg10_of kvs
]

-- A line of the kind that is read, with two fields at least.
abbrev pub value_of : Text → List Text → Option Text
value_of kind [] = none
value_of kind (k ∷ []) = none
value_of kind (k ∷ kv ∷ kvs) = if text_eq k kind then avg10_of (kv ∷ kvs) else none

-- A value that strconv.ParseFloat can return: it reads `NaN` too.
pub data Reading (V : Type 0) : Type 0 where
  nan : Reading V
  number : V → Reading V

-- The limits of the configuration are not NaN.
module _ (F : Float64) (parse_float : Text → Option (Reading F.Value)) where
  open F use {Value, quot, gtb}

  -- readPSIAvg10, of the lines of a file; `none` is an error.
  unfoldable pub read_psi_avg10 : Text → List Text → Option (Reading Value)
  unfolding fields avg10_of text_eq
  read_psi_avg10 kind [] = none
  read_psi_avg10 kind (line ∷ lines) = elim (value_of kind (fields line)) [
    | some v ↦ parse_float v
    | none ↦ read_psi_avg10 kind lines
  ]

  -- /proc/pressure/io and /proc/pressure/cpu; `none` is a file that cannot be read.
  pub record Files : Type 0 where
    pub io : Option (List Text)
    pub cpu : Option (List Text)

  pub record Pressure : Type 0 where
    pub io_full : Reading Value
    pub cpu_some : Reading Value
    pub ok : Bool

  abbrev pub zero_value : Value
  zero_value = quot (pos 0) (pos 1)

  abbrev pub read_file : Text → Option (List Text) → Option (Reading Value)
  read_file kind none = none
  read_file kind (some lines) = read_psi_avg10 kind lines

  abbrev pub or_zero : Option (Reading Value) → Reading Value
  or_zero none = number zero_value
  or_zero (some v) = v

  abbrev pub has_value : Option (Reading Value) → Bool
  has_value none = false
  has_value (some v) = true

  abbrev pub pressure_of : Files → Pressure
  pressure_of f =
      let io = read_file (codes "full") f.io in
      let cpu = read_file (codes "some") f.cpu in
      record { io_full = or_zero io; cpu_some = or_zero cpu; ok = has_value io && has_value cpu }

  -- pressureGate; `none` is the zero time.
  pub record Gate : Type 0 where
    pub at : Option ℕ
    pub last : Pressure

  abbrev pub is_current : ℕ → Option ℕ → Bool
  is_current now none = false
  is_current now (some at) = ltb now (at + pressure_cache_ttl)

  -- hostPressure: the gate after it holds what it returns.
  unfoldable pub host_pressure : ℕ → Files → Gate → Gate
  unfolding read_psi_avg10
  host_pressure now f g =
      if is_current now g.at then g else record { at = some now; last = pressure_of f }

  -- SaturationIOFullPct and SaturationCPUSomePct
  pub record Targets : Type 0 where
    pub io_limit : Value
    pub cpu_limit : Value

  -- errHostSaturated, of the pressure and the limit.
  pub data Saturated : Type 0 where
    by_io by_cpu : Reading Value → Value → Saturated

  abbrev pub is_on : Value → Bool
  is_on limit = gtb limit zero_value

  -- `>=`, which no NaN satisfies.
  abbrev pub is_at_least : Reading Value → Value → Bool
  is_at_least nan limit = false
  is_at_least (number pct) limit = not (gtb limit pct)

  abbrev pub has_reached : Reading Value → Value → Bool
  has_reached pct limit = is_on limit && is_at_least pct limit

  abbrev pub judge_pressure : Targets → Pressure → Option Saturated
  judge_pressure c p =
      if not p.ok
      then none
      else if has_reached p.io_full c.io_limit
      then some (by_io p.io_full c.io_limit)
      else if has_reached p.cpu_some c.cpu_limit
      then some (by_cpu p.cpu_some c.cpu_limit)
      else none

  -- checkSaturation: the gate is not asked where both limits are off.
  unfoldable pub check_saturation : Targets → ℕ → Files → Gate → Gate × Option Saturated
  unfolding host_pressure
  check_saturation c now f g =
      if not (is_on c.io_limit) && not (is_on c.cpu_limit)
      then (g, none)
      else let g' = host_pressure now f g in (g', judge_pressure c g'.last)

  abbrev pub closed_gate : Gate
  closed_gate = record {
    at = none;
    last = record { io_full = number zero_value; cpu_some = number zero_value; ok = false };
  }

  -- Calls one after the other, the last one first: the time of each, and the files at that time.
  unfoldable pub gate_after : Targets → List (ℕ × Files) → Gate
  unfolding check_saturation
  gate_after c [] = closed_gate
  gate_after c ((now, f) ∷ calls) = (check_saturation c now f (gate_after c calls)).0
