-- ===== src/Proxy/Ownership.antt =====
-- Who has each backend connection: the pools of proxy/proxy.go and the handlers that are using one.
pub mod Weights
pub mod Steps
pub mod Runs
pub mod Safety
pub mod Manager
pub mod Reuse
pub mod Lost
pub mod Capacity
pub mod Origin
pub mod Reads
pub mod Sorted
pub mod Masters
pub mod Returns
