-- ===== src/Chat.antt =====
-- Who may post in a chat room and who may start a direct message: src/modules/chat/services.
pub mod Db
pub mod AppGate
pub mod Dm
pub mod Post
pub mod Gated
pub mod Flags
pub mod Enrolled
pub mod Policy
mod Tests
