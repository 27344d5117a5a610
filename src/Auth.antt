-- ===== src/Auth.antt =====
-- Authentication: src/modules/auth. Token and code hashes are numbers that are only compared; the
-- random tokens, identifiers and hashes that the code draws are arguments. Audit rows, access tokens
-- and the notice to live chat sockets are left out.
pub mod Sessions
pub mod Otp
pub mod PasswordReset
mod Tests
mod ResetTests
