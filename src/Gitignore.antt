-- ===== src/Gitignore.antt =====
-- gitignore patterns, internal/gitignore/pattern.go, match.go and dir.go: a line, its compiled form,
-- and the decision of a list of lines.
pub mod Segment
pub mod Path
pub mod Line
mod Tests
