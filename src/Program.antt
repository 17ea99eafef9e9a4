-- ===== src/Program.antt =====
-- cmd/antibruteforce: the program of the server.
pub mod Config
pub mod Main
pub mod StartUp
pub mod Status
pub mod Defaults
mod Tests
