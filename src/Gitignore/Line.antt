-- ===== src/Gitignore/Line.antt =====
-- Lines of rule files, internal/gitignore/pattern.go, and the decision of a list of them, dir.go.
pub mod Last
pub mod Rendered
use spoond.Base.{
  ℕ, Bool, true, false, not, ◌&&◌, ◌||◌, Option, none, some, List, [], ◌∷◌, ◌++◌, ◌==◌, ltb, length,
  if◌then◌else◌,
}
use spoond.Base.Text.{Text}
use spoond.Gitignore.Path.{Pattern, split, match_pattern}

-- strings.HasPrefix and TrimPrefix by one byte.
abbrev pub has_prefix : ℕ → Text → Bool
has_prefix b [] = false
has_prefix b (c ∷ t) = c == b

abbrev pub trim_prefix : ℕ → Text → Text
trim_prefix b [] = []
trim_prefix b (c ∷ t) = if c == b then t else c ∷ t

unfoldable pub has_suffix : ℕ → Text → Bool
has_suffix b [] = false
has_suffix b (c ∷ []) = c == b
has_suffix b (c ∷ t) = has_suffix b t

unfoldable pub drop_last : Text → Text
drop_last [] = []
drop_last (c ∷ []) = []
drop_last (c ∷ t) = c ∷ drop_last t

-- strings.Join by "/".
unfoldable pub join : List Text → Text
join [] = []
join (w ∷ []) = w
join (w ∷ ws) = w ++ b'/' ∷ join ws

abbrev pub with_segments : Text → Pattern → Pattern
with_segments [] pt = pt
with_segments (c ∷ t) pt =
    let segs = split (c ∷ t) in record pt { ir = pt.ir || ltb 1 (length segs); pattern = join segs }

unfoldable pub parse_compiled : Text → List Text → Pattern
parse_compiled p domain =
    let nc = has_prefix b'!' p in
    let bare = trim_prefix b'!' p in
    let is_dir = has_suffix b'/' bare in
    let trimmed = if is_dir then drop_last bare else bare in
    with_segments (trim_prefix b'/' trimmed) (record {
      nc = nc;
      ir = has_prefix b'/' trimmed;
      is_dir = is_dir;
      domain = domain;
      pattern = p;
    })

-- ParsePattern: the domain, and the line after it.
abbrev pub parse_pattern : Text → List Text → List Text
parse_pattern p domain = domain ++ p ∷ []

-- The last segment of a parsed line, and those before it.
unfoldable pub unsnoc : List Text → Option (List Text × Text)
unsnoc [] = none
unsnoc (w ∷ ws) =
    let rest = unsnoc ws in elim rest [ none ↦ some ([], w) | some q ↦ some (w ∷ q.0, q.1) ]

abbrev pub compile_line : Option (List Text × Text) → List Pattern → List Pattern
compile_line none out = out
compile_line (some (domain, [])) out = out
compile_line (some (domain, c ∷ t)) out =
    if c == b'#' then out else parse_compiled (c ∷ t) domain ∷ out

-- Compile: blank lines and comments are left out.
unfoldable pub compile : List (List Text) → List Pattern
unfolding unsnoc parse_compiled has_suffix drop_last join split
compile [] = []
compile (p ∷ ps) = compile_line (unsnoc p) (compile ps)

-- decide, from the last line back: `none` is -1.
unfoldable pub decide : List Pattern → List Text → Bool → Option Bool
unfolding match_pattern
decide [] path is_dir = none
decide (p ∷ ps) path is_dir =
    let later = decide ps path is_dir in
    elim later [ none ↦ match_pattern p path is_dir | some b ↦ some b ]

abbrev pub says_ignore : Option Bool → Bool
says_ignore none = false
says_ignore (some b) = b

-- Match and MatchAny.
unfoldable pub match : List Pattern → List Text → Bool → Bool
unfolding decide
match ps path is_dir = says_ignore (decide ps path is_dir)

unfoldable pub match_any : List Pattern → List Text → Bool → Bool
unfolding decide
match_any ps path is_dir = elim (decide ps path is_dir) [ none ↦ false | some b ↦ true ]
