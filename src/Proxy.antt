-- ===== src/Proxy.antt =====
-- Package proxy: annotations, routing, and the handler of a client connection.
pub mod Clients
pub mod Setup
pub mod Admission
pub mod Annotation
pub mod Routing
pub mod Handler
pub mod Relay
pub mod Ownership
pub mod Counting
