-- ===== src/Host.antt =====
-- What the program runs on: a monad for calls that change the host and may fail, the files of the
-- store, and the state of the host itself.
pub mod Exec
pub mod File
pub mod World
pub mod Settings
pub mod Calls
