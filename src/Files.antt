-- ===== src/Files.antt =====
-- files.py
pub mod Errors
pub mod Paths
pub mod Answers
pub mod Methods
pub mod Listing
pub mod Reading
pub mod Writing
pub mod Uploading
pub mod Receiving
pub mod Stored
pub mod Commits
pub mod Joined
pub mod Uploads
pub mod Names
pub mod Etags
pub mod Rounds
pub mod Pages
pub mod Listed
mod Disk
mod Tests
pub mod Content
