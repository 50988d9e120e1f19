-- ===== src/Saturation/Backed.antt =====
-- checkSaturation, api/saturation.go: what stands behind each answer of the gate.
use spoond.Base.{
  ℕ, ◌+◌, ◌<◌, ◌≡◌, refl, sym, subst, ◌⊎◌, inl, inr, Bool, true, false, not, ◌&&◌, Option, none,
  some, List, [], ◌∷◌, arith, ltb→lt, Any, Any-mono, Bool-cases, clash, if_cases, if◌then◌else◌,
}
use spoond.Base.Text.{Text}
use spoond.Base.Float.{Float64}
use spoond.Saturation.{
  Reading, nan, number, pressure_cache_ttl, Files, Pressure, pressure_of, Gate, is_current,
  host_pressure, Targets, Saturated, by_io, by_cpu, is_on, has_reached, zero_value, judge_pressure,
  check_saturation, gate_after,
}

module _ (F : Float64) (parse_float : Text → Option (Reading F.Value)) where
  open F use {Value, gtb}

  abbrev Call : Type 0
  Call = ℕ × Files F parse_float

  abbrev Seen : Pressure F parse_float → Call → Type 0
  Seen p call = pressure_of F parse_float call.1 ≡ p

  -- What the gate holds was read by the call at its time.
  abbrev Known : Option ℕ → Pressure F parse_float → List Call → Type 0
  Known none p calls = Unit {0}
  Known (some t) p calls = Any (λ call. (call.0 ≡ t) × Seen p call) calls

  abbrev IsFrom : Gate F parse_float → List Call → Type 0
  IsFrom g calls = Known g.at g.last calls

  Known-later :
      (at : Option ℕ) (p : Pressure F parse_float) (call : Call) (calls : List Call)
      → Known at p calls
      → Known at p (call ∷ calls)
  Known-later none p call calls h = tt
  Known-later (some t) p call calls h = inr h

  -- A call at most two seconds old.
  abbrev pub IsRecent : ℕ → Call → Type 0
  IsRecent now call = now < call.0 + pressure_cache_ttl

  current-IsRecent :
      (now : ℕ) (at : Option ℕ) (p : Pressure F parse_float) (calls : List Call)
      → is_current F parse_float now at ≡ true
      → Known at p calls
      → Any (λ call. IsRecent now call × Seen p call) calls
  current-IsRecent now none p calls h k = cc
  current-IsRecent now (some t) p calls h k =
      let lt = ltb→lt now (t + pressure_cache_ttl) h in
      Any-mono _ _ calls (λ call q. (omega (arith, lt, q.0), q.1)) k

  abbrev Answered : Type 0
  Answered = Gate F parse_float × Option (Saturated F parse_float)

  -- Both checks are turned off.
  abbrev pub are_off : Targets F parse_float → Bool
  are_off c = not (is_on F parse_float c.io_limit) && not (is_on F parse_float c.cpu_limit)

  module _ (now : ℕ) (f : Files F parse_float) (g : Gate F parse_float) (calls : List Call)
      (from : IsFrom g calls) where
    abbrev fresh : Gate F parse_float
    fresh = record { at = some now; last = pressure_of F parse_float f }

    host_pressure-IsFrom : IsFrom (host_pressure F parse_float now f g) ((now, f) ∷ calls)
    unfolding host_pressure
    host_pressure-IsFrom =
        if_cases (λ x. IsFrom x ((now, f) ∷ calls)) (is_current F parse_float now g.at) g fresh
          (λ e. Known-later g.at g.last (now, f) calls from) (λ e. inl (refl, refl))

    host_pressure-IsRecent :
        Any
          (λ call. IsRecent now call × Seen (host_pressure F parse_float now f g).last call)
          ((now, f) ∷ calls)
    unfolding host_pressure
    host_pressure-IsRecent =
        if_cases (λ x. Any (λ call. IsRecent now call × Seen x.last call) ((now, f) ∷ calls))
          (is_current F parse_float now g.at) g fresh
          (λ e. inr (current-IsRecent now g.at g.last calls e from)) (λ e. inl (omega arith, refl))

  module _ (c : Targets F parse_float) where
    check_saturation-IsFrom :
        (now : ℕ) (f : Files F parse_float) (g : Gate F parse_float) (calls : List Call)
        → IsFrom g calls
        → IsFrom (check_saturation F parse_float c now f g).0 ((now, f) ∷ calls)
    unfolding check_saturation
    check_saturation-IsFrom now f g calls from =
        if_cases (λ (x : Answered). IsFrom x.0 ((now, f) ∷ calls)) (are_off c) (g, none)
          (let g' = host_pressure F parse_float now f g in
            (g', judge_pressure F parse_float c g'.last))
          (λ e. Known-later g.at g.last (now, f) calls from)
          (λ e. host_pressure-IsFrom now f g calls from)

    gate_after-IsFrom : (calls : List Call) → IsFrom (gate_after F parse_float c calls) calls
    unfolding gate_after
    gate_after-IsFrom [] = tt
    gate_after-IsFrom ((now, f) ∷ calls) =
        check_saturation-IsFrom now f (gate_after F parse_float c calls) calls
          (gate_after-IsFrom calls)

    -- The reading is a number, and not below the limit.
    abbrev pub Reaches : Reading Value → Value → Type 0
    Reaches nan limit = ⊥
    Reaches (number pct) limit = gtb limit pct ≡ false

    abbrev LetsPass : Reading Value → Value → Type 0
    LetsPass pct limit = (gtb limit (zero_value F parse_float) ≡ false) ⊎ (Reaches pct limit → ⊥)

    -- The readings that an answer stands on: a refusal names a resource whose pressure, in readable
    -- files, is a number that has reached a limit that is on; without one the files were not readable, or
    -- each limit is off or not reached.
    abbrev pub Justifies : Option (Saturated F parse_float) → Pressure F parse_float → Type 0
    Justifies none p =
        (p.ok ≡ false) ⊎ (LetsPass p.io_full c.io_limit × LetsPass p.cpu_some c.cpu_limit)
    Justifies (some (by_io pct limit)) p =
        (p.ok ≡ true)
        × (pct ≡ p.io_full)
        × (limit ≡ c.io_limit)
        × (gtb limit (zero_value F parse_float) ≡ true)
        × Reaches pct limit
    Justifies (some (by_cpu pct limit)) p =
        (p.ok ≡ true)
        × (pct ≡ p.cpu_some)
        × (limit ≡ c.cpu_limit)
        × (gtb limit (zero_value F parse_float) ≡ true)
        × Reaches pct limit
        × LetsPass p.io_full c.io_limit

    has_reached_parts :
        (pct : Reading Value) (limit : Value)
        → has_reached F parse_float pct limit ≡ true
        → (gtb limit (zero_value F parse_float) ≡ true) × Reaches pct limit
    has_reached_parts nan limit h = absurd (ground arith)
    has_reached_parts (number pct) limit h = ground arith

    has_reached-LetsPass :
        (pct : Reading Value) (limit : Value)
        → has_reached F parse_float pct limit ≡ false
        → LetsPass pct limit
    has_reached-LetsPass nan limit h = inr (λ r. r)
    has_reached-LetsPass (number pct) limit h =
        elim (Bool-cases (gtb limit (zero_value F parse_float))) [
          | inr e ↦ inl e
          | inl e ↦ let k : gtb limit pct ≡ true = ground arith in inr (λ r. clash k r)
        ]

    judge_pressure-Justifies :
        (p : Pressure F parse_float) → Justifies (judge_pressure F parse_float c p) p
    judge_pressure-Justifies p =
        if_cases (λ o. Justifies o p) (not p.ok) none (by_limits p) (λ e. inl (ground arith))
          (λ e. limits-Justify (ground arith))
      where
        by_limits : Pressure F parse_float → Option (Saturated F parse_float)
        by_limits q =
            if has_reached F parse_float q.io_full c.io_limit
            then some (by_io q.io_full c.io_limit)
            else if has_reached F parse_float q.cpu_some c.cpu_limit
            then some (by_cpu q.cpu_some c.cpu_limit)
            else none

        limits-Justify : p.ok ≡ true → Justifies (by_limits p) p
        limits-Justify ok = elim (Bool-cases (has_reached F parse_float p.io_full c.io_limit)) [
          | inl e ↦
              let q = has_reached_parts p.io_full c.io_limit e in rw e (ok, refl, refl, q.0, q.1)
          | inr e ↦ elim (Bool-cases (has_reached F parse_float p.cpu_some c.cpu_limit)) [
            | inl d ↦
                let q = has_reached_parts p.cpu_some c.cpu_limit d in
                rw (e, d) (ok, refl, refl, q.0, q.1, has_reached-LetsPass p.io_full c.io_limit e)
            | inr d ↦
                rw (e, d)
                  (inr (
                    has_reached-LetsPass p.io_full c.io_limit e,
                    has_reached-LetsPass p.cpu_some c.cpu_limit d,
                  ))
          ]
        ]

    -- After any calls, the answer of the gate stands on one reading of the pressure files that is less
    -- than two seconds old: a refusal names a resource whose pressure had reached a limit that is on,
    -- I/O before CPU, and without one the checks are off, the files could not be read, or no pressure
    -- had reached its limit.
    pub check_saturation-Justifies :
        (now : ℕ) (f : Files F parse_float) (calls : List (ℕ × Files F parse_float))
        → let answer =
            (check_saturation F parse_float c now f (gate_after F parse_float c calls)).1 in
          ((are_off c ≡ true) × (answer ≡ none))
          ⊎ Any
              (λ call. IsRecent now call × Justifies answer (pressure_of F parse_float call.1))
              ((now, f) ∷ calls)
    unfolding check_saturation
    check_saturation-Justifies now f calls =
        let g = gate_after F parse_float c calls in
        let g' = host_pressure F parse_float now f g in
        if_cases
          (λ (x : Answered).
            ((are_off c ≡ true) × (x.1 ≡ none))
            ⊎ Any (λ call. IsRecent now call × Justifies x.1 (pressure_of F parse_float call.1))
                ((now, f) ∷ calls))
          (are_off c) (g, none) (g', judge_pressure F parse_float c g'.last) (λ e. inl (e, refl))
          (λ e. inr (
            Any-mono _ _ ((now, f) ∷ calls)
              (λ call q. (
                q.0,
                subst (λ p. Justifies (judge_pressure F parse_float c g'.last) p) (sym q.1)
                    (judge_pressure-Justifies g'.last),
              ))
              (host_pressure-IsRecent now f g calls (gate_after-IsFrom calls))))
