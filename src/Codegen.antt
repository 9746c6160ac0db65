-- ===== src/Codegen.antt =====
-- src/codegen.rs: the protoc plugin that writes the Rust code of a service.
pub mod Protobuf
pub mod Methods
pub mod Services
pub mod Files
pub mod Writes
pub mod Entries
pub mod ServiceEntries
pub mod Gen
pub mod Missing
pub mod Paths
pub mod Distinct
pub mod Registered
