-- ===== src/Effects.antt =====
-- How the program acts on the world. An action is a function on the history of what has been done,
-- newest first; the world outside answers through `Env`, whose answers may depend on all of it.
-- A Go error is a value, `Option String` with its message; a panic and an exit end the run.
mod Defs
pub mod Trace
pub mod Rules
pub mod Choice
pub mod Invariant
pub mod Panics
unfoldable pub use Defs.*
