-- ===== src/Session.antt =====
-- internal/session: packet numbers, the replay window, and the state machine.
pub mod Replay
pub mod State
pub mod Policy
pub mod Machine
mod Examples
