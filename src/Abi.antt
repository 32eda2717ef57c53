-- ===== src/Abi.antt =====
-- src/abi.rs: the C interface. A pointer is an Option, none if it is null; a C string is its bytes
-- before the terminator; what a valid pointer points at is read whole, as the C contract says.
pub mod Parse
pub mod Calls
pub mod Checks
