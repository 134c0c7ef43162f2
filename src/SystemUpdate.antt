-- ===== src/SystemUpdate.antt =====
-- system_update.py, system_update_transport.py
pub mod Manifest
pub mod Firmware
pub mod Bundle
pub mod Status
pub mod Archive
pub mod Bounds
pub mod Components
pub mod Layout
pub mod Loading
pub mod Transfer
pub mod Perform
pub mod Flashing
pub mod Written
pub mod Answers
pub mod Sent
pub mod Committed
pub mod Ending
pub mod Images
pub mod Described
pub mod Loaded
pub mod Regions
pub mod Overlaps
pub mod Accepted
pub mod Installed
mod ChipModel
mod Chip
mod Tests
mod LoadTests
