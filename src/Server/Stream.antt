-- ===== src/Server/Stream.antt =====
-- `GrpcStream` of src/server.rs: one HTTP/2 stream that carries calls of one method.
-- The prints to the console are left out; those of `Bytes` go through `Server.Debug`.
use grpc_rust.Prelude.{
  ℕ, zero, suc, ◌+◌, ◌-◌, min, Option, none, some, List, [], ◌∷◌, ◌++◌, map, Bytes, length, drop,
  bytes_eq, ascii, ◌==◌, if◌then◌else◌,
}
use grpc_rust.Outcome.{Outcome, returns, stuck, ◌>>=◌, unwrap_err, expect}
use grpc_rust.Grpc.{parse_frame, write_frame}
use grpc_rust.Grpc.Word.{Endian}
use grpc_rust.Marshall.{from_utf8}
use grpc_rust.Method.{ServerServiceDefinition, handle_method}
use grpc_rust.Solicit.{Solicit}

-- `std::io::Cursor<Vec<u8>>`
pub record Cursor : Type 0 where
  pub inner : Bytes
  pub position : ℕ

pub record GrpcStream (http : Solicit) : Type 0 where
  pub stream_id : Option ℕ
  pub headers : Option (List http.Header)
  pub body : Bytes
  pub state : http.StreamState
  pub cursor : Option Cursor
  pub req_buf : Bytes
  pub resp_buf : Bytes
  pub service_definition : ServerServiceDefinition
  pub path : Bytes

unfoldable pub with_id : (http : Solicit) → ℕ → ServerServiceDefinition → GrpcStream http
with_id http stream_id service_definition = record {
  stream_id = some stream_id;
  headers = none;
  body = [];
  state = http.open_state;
  cursor = none;
  req_buf = [];
  resp_buf = [];
  service_definition = service_definition;
  path = [];
}

-- `GrpcStreamFactory` is its one field, and `create` its method, which the session calls.
abbrev pub GrpcStreamFactory : Type 0
GrpcStreamFactory = ServerServiceDefinition

unfoldable pub create : (http : Solicit) → GrpcStreamFactory → ℕ → GrpcStream http
unfolding with_id
create http self id = with_id http id self

-- The rest of a round of the loop: the request is drained and the reply is written.
abbrev pub replied : {http : Solicit} → Endian → GrpcStream http → ℕ → Bytes → GrpcStream http
replied endian self pos r = record self {
  req_buf = drop pos self.req_buf;
  resp_buf = write_frame endian self.resp_buf r;
}

-- The loop of `process_buf`, a round for each complete frame in the request buffer.
unfoldable pub process_loop :
    {http : Solicit} → ℕ → Endian → GrpcStream http → Outcome (GrpcStream http)
process_loop zero endian self = stuck
process_loop (suc fuel) endian self = do
  parsed ← parse_frame endian self.req_buf
  elim parsed [
    | none ↦ returns self
    | some (frame, pos) ↦ handle_method self.service_definition self.path frame >>= λ r.
        process_loop fuel endian (replied endian self pos r)
  ]

-- Each round drains five bytes at least, so the length of the buffer is fuel enough.
unfoldable pub process_buf : {http : Solicit} → Endian → GrpcStream http → Outcome (GrpcStream http)
process_buf endian self = process_loop (suc (length self.req_buf)) endian self

-- The loop of `set_headers` over the headers: the last `:path` wins.
unfoldable pub read_path : (http : Solicit) → List http.Header → Bytes → Outcome Bytes
read_path http [] path = returns path
read_path http (h ∷ rest) path = do
  path' ←
      if bytes_eq (http.header_name h) (ascii ":path")
      then expect (from_utf8 (http.header_value h)) unwrap_err
      else returns path
  read_path http rest path'

unfoldable pub set_headers :
    {http : Solicit} → List http.Header → GrpcStream http → Outcome (GrpcStream http)
unfolding read_path
set_headers {http} headers self = do
  path ← read_path http headers self.path
  returns (record self { path = path; headers = some (map http.to_owned headers) })

abbrev pub extend : {http : Solicit} → GrpcStream http → Bytes → GrpcStream http
extend self more = record self { req_buf = self.req_buf ++ more }

unfoldable pub new_data_chunk :
    {http : Solicit} → Endian → Bytes → GrpcStream http → Outcome (GrpcStream http)
unfolding process_buf
new_data_chunk endian chunk self = process_buf endian (extend self chunk)

unfoldable pub set_state : {http : Solicit} → http.StreamState → GrpcStream http → GrpcStream http
set_state state self = record self { state = state }

-- `StreamDataChunk`, and the result of `get_data_chunk` with its one error.
pub data StreamDataChunk : Type 0 where
  last : ℕ → StreamDataChunk
  chunk : ℕ → StreamDataChunk
  unavailable : StreamDataChunk

pub data DataResult : Type 0 where
  ok : StreamDataChunk → DataResult
  closed : DataResult

-- `Cursor::read` into a buffer of `size` bytes: how many bytes it copied, and the cursor after it.
unfoldable pub cursor_read : ℕ → Cursor → ℕ × Cursor
cursor_read size d =
    let read = min size (length d.inner - d.position) in
    (read, record d { position = d.position + read })

read_chunk : ℕ → Option Cursor → StreamDataChunk × Option Cursor
unfolding cursor_read
read_chunk size none = (unavailable, none)
read_chunk size (some d) =
    let (read, d') = cursor_read size d in
    if d'.position == length d'.inner then (last read, some d') else (chunk read, some d')

-- The trait's `close_local` sets the state through `set_state`; only the last chunk calls it.
close_if_last : {http : Solicit} → StreamDataChunk → GrpcStream http → GrpcStream http
unfolding set_state
close_if_last {http} (last read) self = set_state (http.close_local self.state) self
close_if_last (chunk read) self = self
close_if_last unavailable self = self

unfoldable pub get_data_chunk :
    {http : Solicit} → ℕ → GrpcStream http → DataResult × GrpcStream http
unfolding read_chunk close_if_last
get_data_chunk {http} size self =
    if http.is_closed_local self.state
    then (closed, self)
    else let (c, cursor') = read_chunk size self.cursor in
      (ok c, close_if_last c (record self { cursor = cursor' }))
