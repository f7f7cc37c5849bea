-- ===== src/Protocol.antt =====
-- Package protocol: messages, their frames, and the messages that the proxy builds and reads.
pub mod MessageType
pub mod Authentication
pub mod ErrorField
pub mod Message
pub mod Frame
pub mod Startup
pub mod Error
pub mod ErrorCodes
