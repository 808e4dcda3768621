-- ===== src/Server.antt =====
-- lib/server: the packets of the replies, and what the server does with a message.
pub mod Replies
pub mod State
pub mod Config
pub mod Handlers
pub mod Discover
pub mod Request
pub mod Started
pub mod OwnAddress
