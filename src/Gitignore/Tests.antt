-- ===== src/Gitignore/Tests.antt =====
-- Lines of a rule file on some paths.
use spoond.Base.{◌≡◌, refl, true, false, ◌↔◌, List, [], ◌∷◌, arith}
use spoond.Base.Text.{codes, text_eq}
use spoond.Gitignore.Segment.{seg_glob}
use spoond.Gitignore.Segment.Glob.{Globs}
use spoond.Gitignore.Segment.Loop.{seg_glob_iff}
use spoond.Gitignore.Path.{Pattern, split}
use spoond.Gitignore.Line.{parse_compiled, parse_pattern, compile, match, match_any}
use spoond.Gitignore.Line.Last.{Last, match_iff}
use spoond.Gitignore.Line.Rendered.{Parsed, render, parse_compiled-render}

rule_ops : Unit {0}
unfolding match match_any compile split text_eq seg_glob
rule_ops = tt

-- *.log, /build/, !keep.log and a comment.
abbrev rules : List Pattern
rules = compile (
    parse_pattern (codes "*.log") []
    ∷ parse_pattern (codes "/build/") []
    ∷ parse_pattern (codes "# logs") []
    ∷ parse_pattern (codes "!keep.log") []
    ∷ [])

abbrev inside_all : List Pattern
inside_all = compile (parse_pattern (codes "a/**") (codes "sub" ∷ []) ∷ [])

ignores_log : match rules (codes "x" ∷ codes "y.log" ∷ []) false ≡ true
unfolding rule_ops
ignores_log = refl

keeps_negated : match rules (codes "x" ∷ codes "keep.log" ∷ []) false ≡ false
unfolding rule_ops
keeps_negated = refl

speaks_of_negated : match_any rules (codes "keep.log" ∷ []) false ≡ true
unfolding rule_ops
speaks_of_negated = refl

build_directory : match rules (codes "build" ∷ []) true ≡ true
unfolding rule_ops
build_directory = refl

build_file : match rules (codes "build" ∷ []) false ≡ false
unfolding rule_ops
build_file = refl

build_below : match rules (codes "x" ∷ codes "build" ∷ []) true ≡ false
unfolding rule_ops
build_below = refl

-- a/** is about what lies in sub/a, not about sub/a.
inside_directory : match inside_all (codes "sub" ∷ codes "a" ∷ codes "b" ∷ []) false ≡ true
unfolding rule_ops
inside_directory = refl

directory_itself : match inside_all (codes "sub" ∷ codes "a" ∷ []) true ≡ false
unfolding rule_ops
directory_itself = refl

-- A class that does not match is compared with the name as it is written.
class_read_twice : seg_glob (codes "[a]") (codes "[a]") ≡ true
unfolding rule_ops
class_read_twice = refl

seg_glob_iff_example :
    (seg_glob (codes "m*[a-n].?o") (codes "main.go") ≡ true)
    ↔ Globs (codes "m*[a-n].?o") (codes "main.go")
seg_glob_iff_example = seg_glob_iff (codes "m*[a-n].?o") (codes "main.go") (ground arith)

match_iff_example :
    (match rules (codes "x" ∷ codes "y.log" ∷ []) false ≡ true)
    ↔ Last (codes "x" ∷ codes "y.log" ∷ []) false false rules
match_iff_example = match_iff (codes "x" ∷ codes "y.log" ∷ []) false rules

parse_compiled-render_example :
    Parsed
      (codes "sub" ∷ [])
      b'a'
      (codes "/b")
      true
      false
      true
      (parse_compiled (render true false true (codes "a/b")) (codes "sub" ∷ []))
parse_compiled-render_example =
    parse_compiled-render (codes "sub" ∷ []) b'a' (codes "/b") true false true refl refl
      (unfold spoond.Gitignore.Line.has_suffix in refl)
