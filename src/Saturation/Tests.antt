-- ===== src/Saturation/Tests.antt =====
-- A host whose tasks stalled on I/O for a third of the last ten seconds; values are whole per cents.
use spoond.Base.{
  ℕ, ◌+◌, ◌*◌, ◌-◌, ◌≡◌, ◌⊎◌, refl, true, Option, none, some, List, [], ◌∷◌, ltb, if◌then◌else◌,
  Any,
}
use spoond.Base.Text.{Text, codes, text_eq}
use spoond.Base.Int.{ℤ, pos}
use spoond.Base.FixedPoint.{centi}
use spoond.Saturation.{
  Reading, nan, number, fields, avg10_of, read_psi_avg10, Files, pressure_of, Targets, by_io,
  check_saturation, gate_after,
}
use spoond.Saturation.Backed.{are_off, IsRecent, Justifies, check_saturation-Justifies}

-- The whole part of a decimal number.
abbrev digits : ℕ → Text → ℕ
digits n [] = n
digits n (c ∷ s) = let rest = digits (n * 10 + (c - 48)) s in if ltb c 48 then n else rest

abbrev parse_float : Text → Option (Reading ℤ)
parse_float t = some (if text_eq t (codes "NaN") then nan else number (pos (digits 0 t)))

abbrev io_file : List Text
io_file =
    codes "some avg10=41.20 avg60=12.00 avg300=3.10 total=901"
    ∷ codes "full avg10=33.07 avg60=10.00 avg300=2.00 total=700"
    ∷ []

abbrev stalled : Files centi parse_float
stalled = record { io = some io_file; cpu = some (codes "some avg10=5.00 avg60=1.00" ∷ []) }

abbrev unreadable : Files centi parse_float
unreadable = record { io = none; cpu = none }

abbrev limits : Targets centi parse_float
limits = record { io_limit = pos 20; cpu_limit = pos 75 }

saturation_ops : Unit {0}
unfolding gate_after check_saturation read_psi_avg10 fields avg10_of text_eq
saturation_ops = tt

reads_full : read_psi_avg10 centi parse_float (codes "full") io_file ≡ some (number (pos 33))
unfolding saturation_ops
reads_full = refl

-- A reading that is not a number refuses nothing.
abbrev odd : Files centi parse_float
odd = record { io = some (codes "full avg10=NaN x" ∷ []); cpu = stalled.cpu }

nan_passes :
    (check_saturation centi parse_float limits 0 odd (gate_after centi parse_float limits [])).1
    ≡ none
unfolding saturation_ops
nan_passes = refl

-- One second after a reading the files are not read again.
abbrev before : List (ℕ × Files centi parse_float)
before = (1_000_000_000, stalled) ∷ []

refuses :
    (check_saturation centi parse_float limits 2_000_000_000 unreadable
      (gate_after centi parse_float limits before)).1
    ≡ some (by_io (number (pos 33)) (pos 20))
unfolding saturation_ops
refuses = refl

check_saturation-Justifies_example :
    let answer =
      (check_saturation centi parse_float limits 2_000_000_000 unreadable
        (gate_after centi parse_float limits before)).1 in
    ((are_off centi parse_float limits ≡ true) × (answer ≡ none))
    ⊎ Any
        (λ call.
          IsRecent centi parse_float 2_000_000_000 call
          × Justifies centi parse_float limits answer (pressure_of centi parse_float call.1))
        ((2_000_000_000, unreadable) ∷ before)
check_saturation-Justifies_example =
    check_saturation-Justifies centi parse_float limits 2_000_000_000 unreadable before
