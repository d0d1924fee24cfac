-- ===== src/Executor.antt =====
-- cluster-executor/src/secondary.rs: the node that sends the requests of a test.
pub mod Filling
pub mod Cycle
pub mod Sending
pub mod Seconds
pub mod Session
pub mod Handshake
pub mod Serving
pub mod Reconnect
pub mod WholeTest
pub mod Registry
pub mod Tests
pub mod Connection
pub mod Preparing
pub mod Downloads
