-- ===== src/Gitignore/Path.antt =====
-- matchPattern and segMatch, internal/gitignore/match.go: a compiled line against a path that is
-- split into segments.
pub mod Spans
pub mod Reaches
use spoond.Base.{
  ℕ, Bool, true, false, not, ◌&&◌, ◌||◌, Option, none, some, List, [], ◌∷◌, ◌==◌, if◌then◌else◌,
}
use spoond.Base.Text.{Text, codes, text_eq}
use spoond.Gitignore.Segment.{seg_glob}

-- The struct `pattern` with the `line` in it.
pub record Pattern : Type 0 where
  -- negated by a leading !
  pub nc : Bool
  -- anchored to the directory of the rule file
  pub ir : Bool
  -- a trailing / : directories only
  pub is_dir : Bool
  pub domain : List Text
  pub pattern : Text

abbrev pub is_double : Text → Bool
is_double p = text_eq p (codes "**")

-- A trailing ** needs a segment to stand for.
abbrev pub trailing : Bool → Bool → List Text → Bool
trailing is_dir dir_only [] = false
trailing is_dir dir_only (s ∷ ss) = not dir_only || is_dir

-- `for skip := 0; si+skip <= len(path); skip++`
unfoldable pub any_suffix : (List Text → Bool) → List Text → Bool
any_suffix rest [] = rest []
any_suffix rest (s ∷ ss) = rest (s ∷ ss) || any_suffix rest ss

-- A ** before the segments `ps`, which `rest` matches.
abbrev pub across : Bool → Bool → List Text → (List Text → Bool) → List Text → Bool
across is_dir dir_only [] rest path = trailing is_dir dir_only path
across is_dir dir_only (q ∷ qs) rest path = any_suffix rest path

abbrev pub next_seg : Text → (List Text → Bool) → List Text → Bool
next_seg p rest [] = false
next_seg p rest (s ∷ ss) = seg_glob p s && rest ss

unfoldable pub seg_match : Bool → Bool → List Text → List Text → Bool
unfolding any_suffix
seg_match is_dir dir_only [] [] = not (dir_only && not is_dir)
seg_match is_dir dir_only [] (s ∷ ss) = false
seg_match is_dir dir_only (p ∷ ps) path =
    let rest = seg_match is_dir dir_only ps in
    if is_double p then across is_dir dir_only ps rest path else next_seg p rest path

-- The domain must be a proper prefix of the path.
unfoldable pub strip : List Text → List Text → Option (List Text)
strip [] [] = none
strip [] (s ∷ ss) = some (s ∷ ss)
strip (d ∷ ds) [] = none
strip (d ∷ ds) (s ∷ ss) = if text_eq d s then strip ds ss else none

abbrev pub after_domain : List Text → List Text → Option (List Text)
after_domain [] path = some path
after_domain (d ∷ ds) path = strip (d ∷ ds) path

abbrev pub push : ℕ → List Text → List Text
push c [] = (c ∷ []) ∷ []
push c (w ∷ ws) = (c ∷ w) ∷ ws

-- strings.Split by "/".
unfoldable pub split : Text → List Text
split [] = [] ∷ []
split (c ∷ t) = let rest = split t in if c == b'/' then [] ∷ rest else push c rest

-- A last segment that is empty is no segment.
unfoldable pub drop_empty_last : List Text → List Text
drop_empty_last [] = []
drop_empty_last ([] ∷ []) = []
drop_empty_last (w ∷ ws) = w ∷ drop_empty_last ws

-- The part of the path from the first offset at which the test succeeds.
unfoldable pub first_suffix : (List Text → Bool) → List Text → Option (List Text)
first_suffix test [] = none
first_suffix test (s ∷ ss) = if test (s ∷ ss) then some (s ∷ ss) else first_suffix test ss

abbrev pub start_of : Bool → (List Text → Bool) → List Text → Option (List Text)
start_of true test path = some path
start_of false test path = first_suffix test path

abbrev pub verdict : Bool → (List Text → Bool) → Option (List Text) → Option Bool
verdict nc test none = none
verdict nc test (some path) = if test path then some (not nc) else none

abbrev pub match_from : Pattern → Bool → List Text → Option (List Text) → Option Bool
match_from p is_dir pat none = none
match_from p is_dir [] (some path) = none
match_from p is_dir (s ∷ pat) (some path) =
    let test = seg_match is_dir p.is_dir (s ∷ pat) in verdict p.nc test (start_of p.ir test path)

-- `none` is -1, `some false` is 0, `some true` is 1.
unfoldable pub match_pattern : Pattern → List Text → Bool → Option Bool
unfolding seg_match strip split drop_empty_last first_suffix
match_pattern p path is_dir =
    match_from p is_dir (drop_empty_last (split p.pattern)) (after_domain p.domain path)
