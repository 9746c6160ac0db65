-- ===== src/EndToEnd/FreshStream.antt =====
-- A call of src/client.rs against a new stream of src/server.rs: with the headers of the request too.
use grpc_rust.Prelude.{
  ℕ, ◌≡◌, refl, subst, true, false, some, List, [], ◌∷◌, ◌++◌, map, Bytes, concat, ascii, bytes_eq,
}
use grpc_rust.Outcome.{Outcome, returns, ◌>>=◌}
use grpc_rust.Grpc.Word.{Endian}
use grpc_rust.Marshall.{Carries}
use grpc_rust.Marshall.Utf8.{is_utf8}
use grpc_rust.Method.{
  MethodDescriptor, MethodHandler, ServerMethod, ServerServiceDefinition, server_method,
}
use grpc_rust.Method.Find.{Absent}
use grpc_rust.Solicit.{Solicit}
use grpc_rust.Server.Stream.{GrpcStream, create, with_id, set_headers}
use grpc_rust.Server.Chunks.{feed}
use grpc_rust.Server.Headers.{NotPath, read_path_absent, set_headers_last}
use grpc_rust.Server.Replies.{Fits}
use grpc_rust.Client.Call.{ClientHttp, GrpcClient, new_stream, request_body, response_value}
use grpc_rust.EndToEnd.{unary_call}

-- A header has the name and the value that it is made of.
pub record HasHeaders (http : Solicit) : Type 0 where
  pub name_of : (n v : Bytes) → http.header_name (http.header n v) ≡ n
  pub value_of : (n v : Bytes) → http.header_value (http.header n v) ≡ v

module _ {http : Solicit} (laws : HasHeaders http) (api : ClientHttp http) where
  not_path : (n v : Bytes) → bytes_eq n (ascii ":path") ≡ false → NotPath http (http.header n v)
  not_path n v h = rw (laws.name_of n v) h

  -- The headers of a request lead a stream to the path of the request.
  pub set_headers-new_stream :
      (self : GrpcClient api) (method path body : Bytes) (stream : GrpcStream http)
      → is_utf8 path ≡ true
      → set_headers (new_stream api self method path [] (some body)).0 stream
        ≡ returns (record stream {
          path = path;
          headers = some (map http.to_owned (new_stream api self method path [] (some body)).0);
        })
  unfolding new_stream bytes_eq
  set_headers-new_stream self method path body stream u =
      let m = http.header (ascii ":method") method in
      let p = http.header (ascii ":path") path in
      let back =
        http.header (ascii ":authority") self.host
        ∷ http.header (ascii ":scheme") (api.scheme self.conn)
        ∷ [] in
      subst
        (λ v.
          set_headers (m ∷ p ∷ back) stream
          ≡ returns (record stream { path = v; headers = some (map http.to_owned (m ∷ p ∷ back)) }))
        (laws.value_of (ascii ":path") path)
        (set_headers_last http (m ∷ []) back p stream.path stream
          (read_path_absent http (m ∷ []) stream.path (not_path (ascii ":method") method refl, tt))
          (laws.name_of (ascii ":path") path) (rw (laws.value_of (ascii ":path") path) u)
          (
            not_path (ascii ":authority") self.host refl,
            (not_path (ascii ":scheme") (api.scheme self.conn) refl, tt),
          ))

-- What a new stream of a server does with a request: its headers, then its DATA frames.
abbrev pub served_request :
    {http : Solicit}
    → Endian
    → ServerServiceDefinition
    → ℕ
    → List http.Header
    → List Bytes
    → Outcome (GrpcStream http)
served_request {http} server service id headers chunks =
    set_headers headers (create http service id) >>= feed server chunks

module _ {ℓ κ} {Req : Type ℓ} {Resp : Type κ} {http : Solicit} (laws : HasHeaders http)
    (api : ClientHttp http) (client server : Endian) (method : MethodDescriptor Req Resp)
    (handler : MethodHandler Req Resp) (front back : List ServerMethod)
    (first : Absent method.name front) where
  -- A unary call against a new stream. A client and a server of either byte order share the method's
  -- descriptor, whose name is UTF-8, and no earlier method of the service has that name; its marshallers
  -- read what they wrote. A new stream of the server takes the headers that the client
  -- makes for the call, and the body that it makes for the request, cut into DATA frames in any way;
  -- the handler answers `req` by `resp`; both fit a frame. Then the stream buffers a response body,
  -- with no request bytes left, and the client makes `resp` of that body.
  pub unary_request :
      (self : GrpcClient api) (id : ℕ) (req : Req) (resp : Resp)
      (req_bytes resp_bytes body chunk : Bytes) (chunks : List Bytes)
      → is_utf8 method.name ≡ true
      → Carries method.req_marshaller req req_bytes
      → handler.handle req ≡ returns resp
      → Carries method.resp_marshaller resp resp_bytes
      → Fits req_bytes
      → Fits resp_bytes
      → request_body client method req ≡ returns body
      → concat (chunk ∷ chunks) ≡ body
      → (stream' : GrpcStream http) × (served_request server
            (record { methods = front ++ server_method method handler ∷ back })
            id
            (new_stream api self (ascii "POST") method.name [] (some body)).0
            (chunk ∷ chunks)
          ≡ returns stream')
        × (stream'.req_buf ≡ [])
        × (response_value client method stream'.resp_buf ≡ returns resp)
  unfolding create with_id
  unary_request self id req resp req_bytes resp_bytes body chunk chunks u cq run cp fq fp sent cut =
      let headers = (new_stream api self (ascii "POST") method.name [] (some body)).0 in
      let fresh =
        create http (record { methods = front ++ server_method method handler ∷ back }) id in
      let (stream', fed, idle, answered) =
        unary_call client server method handler front back first req resp req_bytes resp_bytes body
          chunk chunks
          (record fresh { path = method.name; headers = some (map http.to_owned headers) }) cq run
          cp fq fp sent cut refl refl refl refl in
      (
        stream',
        rw (set_headers-new_stream laws api self (ascii "POST") method.name body fresh u) fed,
        idle,
        answered,
      )
