-- ===== src/Checksum.antt =====
-- Internet checksums.
pub mod Ones
pub mod Words
pub mod Pending
pub mod Unsafe
pub mod Generic
pub mod Alternate
pub mod Header
mod Examples
