-- ===== src/Portal.antt =====
-- What a teacher may do in the portal: src/modules/teacher/permissions.
pub mod Types
pub mod Resolve
pub mod Denial
pub mod Grants
pub mod Legacy
mod Tests
