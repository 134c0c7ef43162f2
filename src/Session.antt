-- ===== src/Session.antt =====
-- session.py
pub mod State
pub mod Send
pub mod Info
pub mod Hello
pub mod Receive
pub mod Records
pub mod Requests
pub mod Probes
pub mod Identifiers
pub mod Kept
pub mod Replay
pub mod Sending
pub mod Credit
pub mod Identity
pub mod Adoption
mod Tests
pub mod Answers
pub mod Descriptions
