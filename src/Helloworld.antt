-- ===== src/Helloworld.antt =====
-- The example of grpc-examples/: the messages and the service that are generated from
-- grpc-examples/helloworld.proto, and the programs that use them.
pub mod Runtime
pub mod Reflection
pub mod Fields
pub mod Request
pub mod Reply
pub mod Accessors
pub mod Accesses
pub mod Greeter
pub mod Programs
pub mod Served
pub mod Greet
pub mod Greetings
pub mod Mains
