-- ===== src/Server.antt =====
-- src/server.rs: the server's streams, connections and debug output.
pub mod Debug
pub mod Stream
pub mod Process
pub mod Chunks
pub mod Replies
pub mod Malformed
pub mod Headers
pub mod Lifecycle
pub mod Exchanges
pub mod Answered
pub mod Bounds
pub mod Connection
pub mod Responses
pub mod Session
pub mod Preface
pub mod Serving
pub mod Delivery
pub mod Accept
pub mod Running
pub mod Threads
pub mod Ends
pub mod Resend
