-- ===== src/Client.antt =====
-- lib/client: the messages of the client, what it accepts, and its state machine.
pub mod Verify
pub mod Msgtmpl
pub mod Dclient
pub mod Callback
pub mod Hook
pub mod Send
pub mod Announced
pub mod Accepted
pub mod Mclient
pub mod Heard
