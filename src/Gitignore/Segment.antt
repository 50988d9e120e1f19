-- ===== src/Gitignore/Segment.antt =====
-- segGlob and classMatch, internal/gitignore/match.go: one path segment against one pattern segment.
-- A position in the pattern or the name is the text that is left from there.
pub mod Glob
pub mod Loop
pub mod Ends
use spoond.Base.{
  ℕ, zero, suc, ◌+◌, ◌*◌, Bool, true, false, not, ◌&&◌, ◌||◌, Option, none, some, List, [], ◌∷◌,
  ◌++◌, leb, ◌==◌, if◌then◌else◌, length,
}
use spoond.Base.Text.{Text}

abbrev pub backslash : ℕ
backslash = 92

-- strings.IndexByte(rest, ']') on what follows a '[': the text before the first ']', and after it.
unfoldable pub until_bracket : Text → Option (Text × Text)
until_bracket [] = none
until_bracket (c ∷ p) =
    let rest = until_bracket p in
    if c == b']' then some ([], p) else elim rest [ none ↦ none | some q ↦ some (c ∷ q.0, q.1) ]

-- classMatch: ranges a-z and single bytes.
unfoldable pub class_match : Text → ℕ → Bool
class_match [] c = false
class_match (lo ∷ d ∷ hi ∷ class) c =
    let after = class_match class c in
    let next = class_match (d ∷ hi ∷ class) c in
    if d == b'-'
    then (if leb lo c && leb c hi then true else after)
    else (if lo == c then true else next)
class_match (x ∷ class) c = if x == c then true else class_match class c

-- A leading ! or ^ negates the class.
abbrev pub in_class : Text → ℕ → Bool
in_class [] c = false
in_class (x ∷ class) c =
    if x == b'!' || x == b'^' then not (class_match class c) else class_match (x ∷ class) c

-- The comparison after the switch: an escape takes the next byte of the pattern as it is.
abbrev pub literal : ℕ → Text → ℕ → Option Text
literal x [] c = if x == c then some [] else none
literal x (y ∷ p) c =
    if x == backslash
    then (if y == c then some p else none)
    else (if x == c then some (y ∷ p) else none)

-- The case '[' on the text after it. A class that does not match goes on to the comparison.
abbrev pub bracket : Text → ℕ → Option (Text × Text) → Option Text
bracket p c none = literal b'[' p c
bracket p c (some ([], rest)) = literal b'[' p c
bracket p c (some (x ∷ class, rest)) =
    if in_class (x ∷ class) c then some rest else literal b'[' p c

-- One byte of the name against the head of the pattern, which is no star: what is left of the pattern.
unfoldable pub one : ℕ → Text → ℕ → Option Text
unfolding class_match until_bracket
one x p c =
    if x == b'?' then some p else if x == b'[' then bracket p c (until_bracket p) else literal x p c

-- starX and starN: the pattern after the star, and the name from where the star ends now.
abbrev pub Back : Type 0
Back = Option (Text × Text)

-- `none`: out of fuel.
abbrev pub Round : Type 0
Round = Text → Text → Back → Option Bool

abbrev pub retry : Back → Round → Option Bool
retry none next = some false
retry (some (p, [])) next = some false
retry (some (p, c ∷ s)) next = next p s (some (p, s))

abbrev pub advance : Option Text → Text → Back → Round → Option Bool
advance none s back next = retry back next
advance (some p) s back next = next p s back

-- The switch on a byte of both: whether the pattern's is a star.
abbrev pub turn : Bool → ℕ → Text → ℕ → Text → Back → Round → Option Bool
turn true x p c s back next = next p (c ∷ s) (some (p, c ∷ s))
turn false x p c s back next = advance (one x p c) s back next

unfoldable pub only_stars : Text → Bool
only_stars [] = true
only_stars (x ∷ p) = x == b'*' && only_stars p

unfoldable pub glob_loop : ℕ → Round
unfolding one only_stars
glob_loop zero p s back = none
glob_loop (suc f) p [] back = some (only_stars p)
glob_loop (suc f) [] (c ∷ s) back = retry back (glob_loop f)
glob_loop (suc f) (x ∷ p) (c ∷ s) back = turn (x == b'*') x p c s back (glob_loop f)

abbrev pub answered : Option Bool → Bool
answered none = false
answered (some b) = b

unfoldable pub seg_glob : Text → Text → Bool
unfolding glob_loop
seg_glob p s = answered (glob_loop ((length s + 1) * (length p + 1)) p s none)
