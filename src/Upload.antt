-- ===== src/Upload.antt =====
-- Resumable uploads: src/modules/upload/upload-session.service.ts (the lifecycle of a session) and
-- src/modules/upload/upload-transfer.service.ts (the offset protocol that moves the bytes).
pub mod Status
pub mod Db
pub mod Result
pub mod Session
pub mod Create
pub mod Finalize
pub mod Transfer
pub mod Mime
pub mod Complete
pub mod Ledger
pub mod Invariant
pub mod Protocol
pub mod Answers
pub mod Steps
pub mod Carried
pub mod Replay
pub mod Verified
pub mod Cancelled
mod Tests
