-- ===== src/Ffi.antt =====
-- The C interface (crates/f4kvs-ffi) as far as the Go package calls it.
pub mod Text
pub mod Lsm
pub mod Calls
pub mod Options
pub mod Open
pub mod Memory
