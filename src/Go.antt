-- ===== src/Go.antt =====
-- What the program uses of Go's standard library, and the third-party `lo` as an interface.
pub mod Split
pub mod HostPort
pub mod Decimal
pub mod Lo
pub mod Panic
pub mod Paths
