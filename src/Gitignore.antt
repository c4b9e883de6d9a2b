-- ===== src/Gitignore.antt =====
-- internal/uploader/gitignore.go: the exclude patterns. `Class` and `Segment` match one segment,
-- `Segments` a whole path, `Matcher` evaluates the list of patterns, `Compile` parses it.
pub mod Class
pub mod Segment
pub mod Segments
pub mod Matcher
pub mod Compile
