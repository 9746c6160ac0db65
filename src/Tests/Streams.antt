-- ===== src/Tests/Streams.antt =====
-- Streams at concrete inputs.
use grpc_rust.Prelude.{
  length, ◌<◌, ◌+◌, ◌^◌, ◌≡◌, refl, ◌≢◌, bytes_eq, some, List, [], ◌∷◌, ◌++◌, Bytes, ascii, arith,
  filter,
}
use grpc_rust.Outcome.{returns, panics, stuck, unwrap_err, compression_not_implemented, ◌>>=◌}
use grpc_rust.Grpc.{parse_frame, frame_len, write_frame}
use grpc_rust.Grpc.Word.{little, big, to_be, load_u32, store_u32}
use grpc_rust.Grpc.RoundTrip.{wire}
use grpc_rust.Marshall.{marshaller_bytes, from_utf8}
use grpc_rust.Marshall.Utf8.{is_utf8}
use grpc_rust.Method.{server_method, method_handler_echo, find_method, handle_method}
use grpc_rust.Server.Stream.{
  process_loop, GrpcStream, new_data_chunk, with_id, set_headers, read_path, process_buf,
}
use grpc_rust.Server.Bounds.{Reach-req_buf_bound}
use grpc_rust.Server.Malformed.{feed-panics}
use grpc_rust.Server.Process.{process_buf-ne-stuck}
use grpc_rust.Server.Chunks.{feed, feed_chunking}
use grpc_rust.Server.Replies.{replies, answered, feed-replies}
use grpc_rust.Server.Lifecycle.{headers_set, chunk_received, Reach, here, next}
use grpc_rust.Server.Answered.{Answered, Reach-Answered}
use grpc_rust.Tests.Fixtures.{toy_http, say_hello, echo_service, echo_stream}

feed_chunking_example :
    feed little (wire (ascii "a") ∷ wire (ascii "b") ∷ []) echo_stream
    ≡ feed little ((wire (ascii "a") ++ 0 ∷ []) ∷ (0 ∷ 0 ∷ 0 ∷ 1 ∷ ascii "b") ∷ []) echo_stream
feed_chunking_example =
    feed_chunking little (wire (ascii "a")) (wire (ascii "a") ++ 0 ∷ []) (wire (ascii "b") ∷ [])
      ((0 ∷ 0 ∷ 0 ∷ 1 ∷ ascii "b") ∷ []) echo_stream refl

-- Two messages and the first byte of a third, in two DATA frames.
feed-replies_example :
    feed big ((0 ∷ 0 ∷ []) ∷ (0 ∷ 0 ∷ 1 ∷ ascii "a" ++ wire (ascii "b") ++ 0 ∷ []) ∷ []) echo_stream
    ≡ (replies echo_service say_hello (ascii "a" ∷ ascii "b" ∷ []) >>= λ out.
        returns (answered echo_stream (0 ∷ []) out))
feed-replies_example =
    feed-replies big (0 ∷ 0 ∷ []) ((0 ∷ 0 ∷ 1 ∷ ascii "a" ++ wire (ascii "b") ++ 0 ∷ []) ∷ [])
      (ascii "a" ∷ ascii "b" ∷ []) (0 ∷ []) echo_stream refl refl (omega arith)
      (unfold parse_frame in refl)

echo_total : (message : Bytes) → handle_method echo_service say_hello message ≢ stuck
unfolding handle_method find_method filter bytes_eq server_method method_handler_echo
    marshaller_bytes
echo_total message = λ e. cc

process_buf-ne-stuck_example :
    process_buf little (record echo_stream { req_buf = wire (ascii "a") }) ≢ stuck
process_buf-ne-stuck_example =
    process_buf-ne-stuck little (record echo_stream { req_buf = wire (ascii "a") }) echo_total

abbrev two_paths : List (Bytes × Bytes)
two_paths = (ascii ":method", ascii "POST") ∷ (ascii ":path", ascii "/a/b") ∷ []

last_path_wins :
    set_headers
      (two_paths ++ (ascii ":path", say_hello) ∷ (ascii "te", ascii "trailers") ∷ [])
      echo_stream
    ≡ returns (record echo_stream {
      path = say_hello;
      headers =
          some (two_paths ++ (ascii ":path", say_hello) ∷ (ascii "te", ascii "trailers") ∷ []);
    })
unfolding set_headers read_path from_utf8 is_utf8 bytes_eq
last_path_wins = refl

bad_path_panics :
    set_headers (two_paths ++ (ascii ":path", 0xff ∷ []) ∷ []) echo_stream ≡ panics unwrap_err
unfolding set_headers read_path from_utf8 is_utf8 bytes_eq
bad_path_panics = refl

abbrev fresh : GrpcStream toy_http
fresh = with_id toy_http 5 echo_service

abbrev call_headers : List (Bytes × Bytes)
call_headers = (ascii ":method", ascii "POST") ∷ (ascii ":path", say_hello) ∷ []

abbrev with_headers : GrpcStream toy_http
with_headers = record fresh { headers = some call_headers; path = say_hello }

abbrev with_message : GrpcStream toy_http
with_message = record with_headers { req_buf = 0 ∷ []; resp_buf = wire (ascii "hi") }

chunk_taken_in :
    new_data_chunk little (wire (ascii "hi") ++ 0 ∷ []) with_headers ≡ returns with_message
unfolding with_id new_data_chunk process_buf process_loop parse_frame handle_method find_method
    filter bytes_eq server_method method_handler_echo marshaller_bytes frame_len to_be load_u32
    write_frame store_u32
chunk_taken_in = refl

headers_taken : set_headers call_headers fresh ≡ returns with_headers
unfolding with_id set_headers read_path from_utf8 is_utf8 bytes_eq
headers_taken = refl

abbrev reached : Reach little fresh with_message
reached =
    next (next here (headers_set call_headers headers_taken))
      (chunk_received (wire (ascii "hi") ++ 0 ∷ []) chunk_taken_in)

Reach-Answered_example : Answered little echo_service (wire (ascii "hi") ++ 0 ∷ []) with_message
Reach-Answered_example = Reach-Answered little echo_service 5 reached (omega arith)

-- One message, then the header of a compressed one.
feed-panics_example :
    feed little ((wire (ascii "a") ++ 1 ∷ 0 ∷ []) ∷ (0 ∷ 0 ∷ 0 ∷ []) ∷ []) echo_stream ≡ (
      replies echo_service say_hello (ascii "a" ∷ []) >>= λ out. panics compression_not_implemented)
feed-panics_example =
    feed-panics little (wire (ascii "a") ++ 1 ∷ 0 ∷ []) ((0 ∷ 0 ∷ 0 ∷ []) ∷ []) (ascii "a" ∷ [])
      (1 ∷ 0 ∷ 0 ∷ 0 ∷ 0 ∷ []) compression_not_implemented echo_stream refl refl (omega arith)
      (unfold parse_frame in refl)

-- A new stream that has received the first two bytes of a header.
abbrev begun : GrpcStream toy_http
unfolding with_id
begun = record (with_id toy_http 3 echo_service) { req_buf = 0 ∷ 0 ∷ [] }

begun_reached : Reach little (with_id toy_http 3 echo_service) begun
begun_reached =
    next {u = begun} here
      (chunk_received (0 ∷ 0 ∷ []) (unfold new_data_chunk with_id process_loop parse_frame in refl))

Reach-req_buf_bound_example : length begun.req_buf < 2 ^ 32 + 4
Reach-req_buf_bound_example = Reach-req_buf_bound little 3 echo_service begun_reached
