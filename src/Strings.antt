-- ===== src/Strings.antt =====
-- What the program uses of Go's packages `strings` and `unicode`. A string is a list of Unicode
-- scalar values, so it stands for a Go string that is valid UTF-8; `len` counts its bytes.
mod Trim
mod Upper
mod Order
mod Prefix
unfoldable pub use Trim.*
unfoldable pub use Upper.*
unfoldable pub use Order.*
unfoldable pub use Prefix.*
