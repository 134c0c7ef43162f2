-- ===== src/Wire/Codes.antt =====
-- The enumerations of protocol.py, by the part of the protocol that uses them.
pub mod Enum
pub mod Transport
pub mod Services
pub mod Files
pub mod Tags
pub mod Unique
