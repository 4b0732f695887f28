-- ===== src/Platform.antt =====
-- What the code calls and does not implement: the Apache Portable Runtime and the C allocator, as an
-- interface, the laws that it is documented to have, and a value of it that runs in tests.
mod Interface
mod Laws
pub mod Table
pub mod Script
pub use Interface.*
pub use Laws.*
