-- ===== src/Blacklist.antt =====
-- The store of revoked tokens: src/config/blacklist-store.ts.
pub mod Store
pub mod Revoked
mod Tests
