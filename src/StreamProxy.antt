-- ===== src/StreamProxy.antt =====
-- internal/streamproxy: one shared upstream session for each channel that is being watched, and a
-- queue of output for each client.
pub mod Subscriber
pub mod Session
pub mod Handler
pub mod Serve
pub mod Client
pub mod Pump
pub mod Upstream
pub mod Run
mod Tests
