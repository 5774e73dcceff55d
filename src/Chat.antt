-- ===== src/Chat.antt =====
-- components/chatservice: chats and their messages, kept apart by tenant.
pub mod Contracts
pub mod Action
pub mod Service
pub mod Posting
pub mod Transcript
pub mod Answers
pub mod Tenancy
pub mod Invariant
pub mod Listing
pub mod Runs
pub mod Http
mod Tests
