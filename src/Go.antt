-- ===== src/Go.antt =====
-- The parts of Go and of its standard library that the source rests on: bytes, run-time panics,
-- blocked channel operations, I/O errors, slices, encoding/binary in big-endian order, and the
-- functions of package strings. It models no file of the repository.
mod Results
mod Slices
pub mod BigEndian
pub mod Strings
pub mod Channels
pub mod Decimal
unfoldable pub use Results.*
unfoldable pub use Slices.*
