-- ===== src/Client/Call.antt =====
-- `GrpcClient` of src/client.rs: requests, the wait for a response, and calls.
use grpc_rust.Prelude.{
  ℕ, zero, suc, Bool, true, false, Option, none, some, List, [], ◌∷◌, ◌++◌, Bytes, ascii,
  if◌then◌else◌,
}
use grpc_rust.Outcome.{
  Outcome, returns, panics, stuck, unwrap_none, unwrap_err, expect, ◌>>=◌ as bind,
}
use grpc_rust.Grpc.{write_frame, parse_frame_completely}
use grpc_rust.Grpc.Word.{Endian}
use grpc_rust.Method.{MethodDescriptor}
use grpc_rust.Solicit.{Solicit, HttpResult, ok, failed, Io, ◌>>=◌}

-- The calls into `solicit`: the client's connection with its two sockets and its streams, and the
-- default stream type. The status is true for `SendStatus::Sent`.
pub record ClientHttp (http : Solicit) : Type 1 where
  pub Conn : Type 0
  pub Stream : Type 0
  pub new_stream : Stream
  pub set_full_data : Bytes → Stream → Stream
  pub close_local : Stream → Stream
  pub is_closed : Stream → Bool
  pub stream_headers : Stream → Option (List http.Header)
  pub stream_body : Stream → Bytes
  pub scheme : Conn → Bytes
  pub start_request : Conn → List http.Header → Stream → HttpResult http.HttpError (ℕ × Conn)
  pub get_stream : Conn → ℕ → Option Stream
  pub set_stream_id : Conn → ℕ → Conn
  pub send_next_data : Conn → HttpResult http.HttpError (Bool × Conn)
  pub read_frame : Conn → HttpResult http.HttpError Conn

pub record Response (http : Solicit) : Type 0 where
  pub stream_id : ℕ
  pub headers : List http.Header
  pub body : Bytes

-- `unwrap` on the result of a call.
abbrev pub unwrap {ℓ} : {E : Type 0} {A : Type ℓ} → Io E A → Outcome A
unwrap (returns (ok a)) = returns a
unwrap (returns (failed e)) = panics unwrap_err
unwrap (panics p) = panics p
unwrap stuck = stuck

-- The body of the request of a call: one frame.
unfoldable pub request_body {ℓ κ} :
    {Req : Type ℓ} {Resp : Type κ} → Endian → MethodDescriptor Req Resp → Req → Outcome Bytes
request_body endian method req =
    bind (method.req_marshaller.write req)
      λ req_serialized. returns (write_frame endian [] req_serialized)

-- What a call makes of the body of the response.
unfoldable pub response_value {ℓ κ} :
    {Req : Type ℓ} {Resp : Type κ} → Endian → MethodDescriptor Req Resp → Bytes → Outcome Resp
response_value endian method body = bind (parse_frame_completely endian body) λ parsed.
    bind (expect parsed unwrap_none) λ resp_serialized. method.resp_marshaller.read resp_serialized

module _ {http : Solicit} (api : ClientHttp http) where
  open api use {Conn, Stream}

  pub record GrpcClient : Type 0 where
    pub host : Bytes
    pub conn : Conn

  -- `GrpcClient::new`, where `connect` opens the connection with its sockets on a host and a port.
  unfoldable pub new : (Bytes → ℕ → Option Conn) → Bytes → ℕ → Outcome GrpcClient
  new connect host port =
      bind (expect (connect host port) unwrap_err)
        λ conn. returns (record { host = host; conn = conn })

  -- The stream's data, or the end of its sending side.
  unfoldable pub request_stream : Option Bytes → Stream
  request_stream (some body) = api.set_full_data body api.new_stream
  request_stream none = api.close_local api.new_stream

  -- `new_stream`: the `RequestStream` is its headers and its stream.
  unfoldable pub new_stream :
      GrpcClient → Bytes → Bytes → List http.Header → Option Bytes → List http.Header × Stream
  unfolding request_stream
  new_stream self method path extras body = (
    (http.header (ascii ":method") method
          ∷ http.header (ascii ":path") path
          ∷ http.header (ascii ":authority") self.host
          ∷ http.header (ascii ":scheme") (api.scheme self.conn)
          ∷ [])
        ++ extras,
    request_stream body,
  )

  -- `while let Sent = try!(self.conn.send_next_data(..)) {}`
  unfoldable pub send_all : ℕ → Conn → Io http.HttpError Conn
  send_all zero conn = stuck
  send_all (suc fuel) conn = do
    (more, conn') ← returns (api.send_next_data conn)
    elim more [ true ↦ send_all fuel conn' | false ↦ returns (ok conn') ]

  unfoldable pub request :
      ℕ
      → GrpcClient
      → Bytes
      → Bytes
      → List http.Header
      → Option Bytes
      → Io http.HttpError (ℕ × GrpcClient)
  unfolding new_stream
  request fuel self method path extras body = do
    let (headers, stream) = new_stream self method path extras body
    (stream_id, conn) ← returns (api.start_request self.conn headers stream)
    known ← bind (expect (api.get_stream conn stream_id) unwrap_none) (λ s. returns (ok s))
    conn' ← send_all fuel (api.set_stream_id conn stream_id)
    returns (ok (stream_id, record self { conn = conn' }))

  abbrev pub handle_next_frame : GrpcClient → Io http.HttpError GrpcClient
  handle_next_frame self =
      returns (api.read_frame self.conn) >>= λ conn. returns (ok (record self { conn = conn }))

  -- The response of a stream, if the stream is there and closed; its headers have to be there.
  unfoldable pub finished : Option Stream → ℕ → Option (Outcome (Response http))
  finished none stream_id = none
  finished (some stream) stream_id =
      if api.is_closed stream
      then some (
          bind (expect (api.stream_headers stream) unwrap_none) λ headers.
            returns
              (record { stream_id = stream_id; headers = headers; body = api.stream_body stream }))
      else none

  -- The loop of `get_response`; `fuel` bounds the frames that are read.
  unfoldable pub wait : ℕ → GrpcClient → ℕ → Io http.HttpError (Response http × GrpcClient)
  wait zero self stream_id = stuck
  wait (suc fuel) self stream_id = elim (finished (api.get_stream self.conn stream_id) stream_id) [
    | some result ↦ bind result (λ response. returns (ok (response, self)))
    | none ↦ handle_next_frame self >>= λ self'. wait fuel self' stream_id
  ]

  unfoldable pub get_response : ℕ → GrpcClient → ℕ → Io http.HttpError (Response http × GrpcClient)
  unfolding wait finished
  get_response fuel self stream_id = elim (api.get_stream self.conn stream_id) [
    | none ↦ returns (failed http.unknown_stream_id)
    | some _ ↦ wait fuel self stream_id
  ]

  unfoldable pub call {ℓ κ} :
      {Req : Type ℓ} {Resp : Type κ}
      → ℕ
      → Endian
      → GrpcClient
      → Req
      → MethodDescriptor Req Resp
      → Outcome (Resp × GrpcClient)
  call fuel endian self req method = bind (request_body endian method req) λ body.
      bind (unwrap (request fuel self (ascii "POST") method.name [] (some body))) λ sent.
        bind (unwrap (get_response fuel sent.1 sent.0)) λ answer.
          bind (response_value endian method answer.0.body) λ resp. returns (resp, answer.1)
