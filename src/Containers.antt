-- ===== src/Containers.antt =====
-- Go's maps with string keys, `sort.Strings`, and lists in ascending order.
mod Sets
mod Maps
mod Sorting
mod Index
unfoldable pub use Sets.*
unfoldable pub use Maps.*
unfoldable pub use Sorting.*
unfoldable pub use Index.*
