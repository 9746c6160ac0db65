-- ===== src/Lib.antt =====
-- grpc-rust: a synchronous gRPC client and server over HTTP/2, with a generator of client and server
-- code. The paths below are from the repository's root.
--
-- The parts. A client serialises a request by the method's marshaller, puts it in a length-prefixed
-- frame, and sends that frame as the body of an HTTP/2 request whose `:path` is the method's name. A
-- server keeps a `GrpcStream` for each HTTP/2 stream: it collects the body's DATA frames, and for
-- each complete message frame calls the service's method of that path and appends the framed reply to
-- a response buffer. After each HTTP/2 frame the connection sends every nonempty response buffer as
-- headers, data and trailers. The generator makes, from protoc's descriptors, the method descriptors
-- that client and server share.
--
--   Prelude           names passed on from the libraries, byte strings, lemmas on lists
--   Outcome           a Rust call's end: it returns or panics, each panic named by its site
--   Grpc              src/grpc.rs. `parse_frame`, `parse_frame_completely`, `write_frame`; the `u32` of
--                     the header in memory order is Grpc.Word
--   Marshall          src/marshall.rs and src/grpc_protobuf.rs, with the UTF-8 test of `from_utf8`
--   Method            src/method.rs. Descriptors, handlers, and a service's dispatch table
--   Solicit           the interface of the `solicit` crate, and its `HttpResult` under `try!`
--   Server.Stream     src/server.rs, `GrpcStream` and its `solicit::http::session::Stream` methods:
--                     `process_buf`, `set_headers`, `new_data_chunk`, `set_state`, `get_data_chunk`
--   Server.Connection src/server.rs, `GrpcServerConnection`: `new` (here `connect`), `handle_next`
--                     with all that it calls, and `run`
--   Server.Session    how `solicit` hands the frames of a connection to the streams of src/server.rs,
--                     and what one stream comes to that is alone on its connection
--   Server.Debug      src/server.rs, `BsDebug` and `HeaderDebug`
--   Server.Accept     src/server.rs, `GrpcServer`: `new`, `run` over the accepts of its listener and
--                     the turns of its threads
--   Client.Call       src/client.rs, `GrpcClient`: `new`, `new_stream`, `request`,
--                     `handle_next_frame`, `get_response`, `call`
--   ClientAsync       src/client_async.rs and src/result.rs: `GrpcClientAsync`, its event loop
--   Codegen.Protobuf  the interface of the `protobuf` crate's descriptors and `CodeWriter`
--   Codegen.Methods   src/codegen.rs, `MethodGen`
--   Codegen.Services  src/codegen.rs, `ServiceGen`
--   Codegen.Files     src/codegen.rs, `gen_file` and `gen`
--   ChannelSyncSender src/channel_sync_sender.rs. The mutex is its content and a poison flag; the
--                     threads' sends are a sequence in the order of the lock
--   Helloworld        grpc-examples/src/: the messages `HelloRequest` and `HelloReply` of
--                     helloworld.rs (Request and Reply, the loop that both share in Fields), the
--                     service of helloworld_grpc.rs (Greeter), and the programs of bin/ with
--                     src/bin/temp-server.rs (Programs)
--   Helloworld.Reflection
--                     the reflection of helloworld.rs: the embedded descriptor of the file (Data), its
--                     parsing and the static that keeps it (Embedded), with the default instances and
--                     the descriptors of the messages in Request.Static and Reply.Static, the statics
--                     together (Calls), and the wire format that the embedded bytes are read in (Wire)
--   Server.Process, Server.Chunks, Server.Replies, Server.Malformed, Server.Headers,
--   Server.Debug.Printed, Server.Lifecycle, Server.Exchanges, Server.Answered, Server.Bounds,
--   Server.Serving, Server.Delivery, Server.Threads, Server.Running, Server.Ends, Server.Responses,
--   Server.Preface, Server.Resend, Server.Session.Steps, Server.Session.Rounds,
--   Server.Session.Alone, Method.Find, Method.Dispatch, Grpc.Parse, Grpc.RoundTrip, Grpc.Complete,
--   Marshall.Chars, Client.Wait, Client.Unary, Client.Returned, Client.Sound, Client.Breaks,
--   ClientAsync.Calls, Codegen.Writes, Codegen.Entries, Codegen.ServiceEntries, Codegen.Gen,
--   Codegen.Missing, Codegen.Paths, Codegen.Distinct, Codegen.Registered, ChannelSyncSender.Sends,
--   EndToEnd with EndToEnd.FreshStream, EndToEnd.RequestFrames, EndToEnd.Connection, and, in
--   Helloworld, the RoundTrip and Accessors modules, Accesses, Served, Greet, Greetings, Mains and
--   the other modules of Reflection hold proofs, named for what they are about.
--   Tests             the theorems at concrete inputs, tests of src/grpc.rs, and the generator's output
--                     for grpc-examples/helloworld.proto, whose descriptor is the embedded one
--
-- Correspondence. Byte strings are lists of numbers. A struct is a record with its fields, a method
-- that takes `&mut self` returns the new record. `unwrap`, `panic!` and a slice out of range are
-- panics, `try!` passes an error on. A boxed trait object with one method is that method. Prints to the
-- console are left out; the strings that `BsDebug` and `HeaderDebug` make for them are there.
--
-- Bounds. `usize` has 64 bits, so that `len + header_len` is taken modulo 2 ^ 64; the length of a
-- frame is truncated to 32 bits as the source's cast does. Both byte orders of the machine are
-- covered, by an argument of type `Endian`. A loop whose end the code does not show takes fuel, and
-- the value `stuck` says that it ran out. `process_buf` needs a round for each frame of the buffer,
-- and a frame has five bytes at least: its fuel is the buffer's length and one. The fuel of
-- `send_all`, `flush_streams` and `wait` is an argument, since the frames that are sent and read are
-- the peer's and the crate's affair. `run` of a connection takes the number of rounds, because it
-- has no end but an error, and `run` of a server takes the events, because it has no end but a
-- panic. `merge_from` reads a field in each round, and takes the length of its bytes and one. The
-- sizes of messages are taken modulo 2 ^ 32, as release builds do.
--
-- Parameters. What the code takes from third-party crates is an argument: `Solicit`, `ServerHttp`
-- and `ClientHttp` for `solicit` with its sockets and sessions, `Message`, `Protobuf`,
-- `Helloworld.Runtime` and `ReflectionRuntime` for `protobuf`, `Channel` and `Oneshots` for
-- `futures`. A service's handlers are arbitrary functions that may panic. What a theorem relies on
-- of these arguments is a record that it takes: `Delivers`, `Dispatches`, `HasStates`, `HasHeaders`,
-- `IsProtobuf`, `IsField`, `IsReflection`, `Tracks` and the like.
--
-- Not modelled: the sockets themselves and the operating system's threads, which stand as sequences
-- of events; of grpc-examples/src/helloworld.rs, `type_id` and `as_any`, which are the language's
-- own, `Debug`, which is the crate's text format, and `descriptor` and `MessageStatic::new`, which
-- only call `descriptor_static` and `new`; the plugin's main program, which is a call of I/O; and
-- grpc-examples/src/lib.rs and src/lib.rs, which are lists of modules.
mod Prelude
pub mod Outcome
pub mod Grpc
pub mod Marshall
pub mod Method
pub mod Solicit
pub mod Server
pub mod Codegen
pub mod Client
pub mod ClientAsync
pub mod EndToEnd
pub mod Helloworld
pub mod ChannelSyncSender
mod Tests
