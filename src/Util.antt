-- ===== src/Util.antt =====
-- src/util.c: SignalChecker, and the functions that turn what libuv knows of the machine into
-- Python objects.
pub mod Checker
pub mod Draining
pub mod Held
pub mod Tables
pub mod Listing
mod Examples
