-- ===== src/Requests.antt =====
-- src/request.rs: the parts of an endpoint.
pub mod Limits
pub mod Responses
pub mod Sends
pub mod Streams
mod Tests
