-- ===== src/Server/Bounds.antt =====
-- How much a stream of src/server.rs keeps of what it has received.
use grpc_rust.Prelude.{ℕ, ◌+◌, ◌^◌, ◌<◌, ◌≡◌, none, Bytes, length, arith}
use grpc_rust.Outcome.{returns}
use grpc_rust.Grpc.{parse_frame}
use grpc_rust.Grpc.Word.{Endian}
use grpc_rust.Grpc.Parse.{frame_len-lt}
use grpc_rust.Method.{ServerServiceDefinition}
use grpc_rust.Solicit.{Solicit}
use grpc_rust.Server.Stream.{GrpcStream, with_id}
use grpc_rust.Server.Lifecycle.{Reach, Reach-IsServed}

incomplete_bound :
    (endian : Endian) (stream : Bytes)
    → parse_frame endian stream ≡ returns none
    → length stream < 2 ^ 32 + 4
unfolding parse_frame
incomplete_bound endian stream h = ground (arith, frame_len-lt endian stream)

-- Whatever the session calls on a new stream, and in whatever order, the stream keeps fewer bytes
-- than the largest frame has, 2 ^ 32 + 4, of what it has received.
pub Reach-req_buf_bound :
    {http : Solicit} (endian : Endian) (id : ℕ) (service : ServerServiceDefinition)
    {s : GrpcStream http}
    → Reach endian (with_id http id service) s
    → length s.req_buf < 2 ^ 32 + 4
Reach-req_buf_bound endian id service {s} r =
    incomplete_bound endian s.req_buf (Reach-IsServed endian id service r).no_frame_waits
