-- ===== src/Credentials.antt =====
-- Usernames and passwords: src/utils/username.ts and src/utils/password-policy.ts.
pub mod Password
pub mod Username
pub mod Decimal
pub mod Letters
pub mod RoundTrip
pub mod Strong
mod Tests
