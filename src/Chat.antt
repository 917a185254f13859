-- ===== src/Chat.antt =====
-- src/chat: who may talk to whom, conversations, messages, and the sockets of the connected users.
pub mod Guards
pub mod Conversations
pub mod Messages
pub mod Registry
pub mod Gateway
pub mod Errors
