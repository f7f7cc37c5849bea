-- ===== src/Proxy/Counting.antt =====
-- proxy/proxy.go, the counters of `Stats`: int32 values that wrap around, and count the queries that
-- are served on each node.
pub mod Stats
pub mod Runs
pub mod Nodes
