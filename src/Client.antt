-- ===== src/Client.antt =====
-- src/client.rs: the synchronous client.
pub mod Call
pub mod Wait
pub mod Unary
pub mod Returned
pub mod Sound
pub mod Breaks
