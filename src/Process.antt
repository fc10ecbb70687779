-- ===== src/Process.antt =====
-- src/process.c: the containers for standard streams, and the child processes that spawn() starts.
pub mod StdIo
pub mod Arrays
pub mod Options
pub mod Memory
pub mod Release
pub mod Stages
pub mod Cleanup
pub mod Streams
pub mod Spawn
pub mod Object
mod Examples
