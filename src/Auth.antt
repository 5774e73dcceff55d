-- ===== src/Auth.antt =====
-- components/authservice: tokens, users and the service that issues and checks tokens.
pub mod Contracts
pub mod Signer
pub mod Base64
pub mod Signing
pub mod Forgery
pub mod Users
pub mod Passwords
pub mod Service
pub mod Grants
pub mod Sessions
pub mod Scopes
pub mod Access
mod Tests
