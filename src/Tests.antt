-- ===== src/Tests.antt =====
-- Concrete runs of the models, and the theorems at concrete inputs.
mod Fixtures
mod Protobufs
mod Reflections
mod Framing
mod Service
mod Streams
mod Connections
mod Clients
mod Requests
mod Printing
mod Golden
mod Senders
mod AsyncClients
mod Sessions
mod Multiplexing
mod Interleaved
mod Idle
mod Greetings
mod Threads
mod Generator
mod Greeting
