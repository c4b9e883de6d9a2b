-- ===== src/SlashPath.antt =====
-- Go's package `path`, which the sources use on slash-separated remote paths: path.Clean, path.Join
-- and path.Dir. A path is read as a location: whether it is rooted, how many `..` it begins with,
-- and the names below that, the deepest first.
mod Defs
mod Walk
mod Render
mod Parent
mod Climbs
unfoldable pub use Defs.*
pub use Walk.*
pub use Render.*
pub use Parent.*
pub use Climbs.*
