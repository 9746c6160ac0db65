-- ===== src/Helloworld/Reflection.antt =====
-- The reflection of grpc-examples/src/helloworld.rs.
pub mod Wire
pub mod Data
pub mod File
pub mod Runtime
pub mod Embedded
pub mod Lazies
pub mod Calls
pub mod Declared
pub mod Follows
