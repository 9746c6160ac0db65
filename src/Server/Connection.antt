-- ===== src/Server/Connection.antt =====
-- `GrpcServerConnection` of src/server.rs: one connection, which handles a frame at a time and then
-- sends what its streams have to say. Its prints are left out. The HTTP/2 connection with its
-- two sockets, and the session state with its streams, are those of `solicit`.
use grpc_rust.Prelude.{
  ℕ, zero, suc, Option, Bool, true, false, List, [], ◌∷◌, ◌++◌, Bytes, length, take, drop, bytes_eq,
  ascii, ltb, if◌then◌else◌,
}
use grpc_rust.Outcome.{
  Outcome, returns, panics, stuck, unwrap_err, bad_preface, expect, ◌>>=◌ as bind,
}
use grpc_rust.Method.{ServerServiceDefinition}
use grpc_rust.Solicit.{Solicit, HttpResult, ok, Io, ◌>>=◌}
use grpc_rust.Server.Stream.{GrpcStream, GrpcStreamFactory}

pub data SendStatus : Type 0 where
  sent : SendStatus
  nothing : SendStatus

-- The calls into `solicit`: the connection's sender, the reader that dispatches one frame to the
-- streams of the session (it makes new ones with the factory's `create`), and
-- the two calls on the session state. A flag is true for `EndStream::Yes`. A new connection is on a
-- client's socket with a second handle of it, which `try_split` may fail to make.
pub record ServerHttp (http : Solicit) : Type 1 where
  pub Conn : Type 0
  pub Sessions : Type 0
  pub iter : Sessions → List (ℕ × GrpcStream http)
  pub get_closed : Sessions → List (GrpcStream http) × Sessions
  pub send_headers : Conn → List http.Header → ℕ → Bool → HttpResult http.HttpError Conn
  pub send_data : Conn → Bytes → ℕ → Bool → HttpResult http.HttpError Conn
  pub send_next_data : Conn → Sessions → HttpResult http.HttpError (SendStatus × Conn × Sessions)
  pub read_frame : GrpcStreamFactory → Conn → Sessions → Io http.HttpError (Conn × Sessions)
  pub new_conn : Bytes → Option Conn
  pub new_sessions : Sessions

-- The client's preface, which `new` reads first.
abbrev pub preface : Bytes
preface = ascii "PRI * HTTP/2.0" ++ 13 ∷ 10 ∷ 13 ∷ 10 ∷ [] ++ ascii "SM" ++ 13 ∷ 10 ∷ 13 ∷ 10 ∷ []

module _ {http : Solicit} (api : ServerHttp http) where
  open api use {
    Conn, Sessions, iter, get_closed, send_headers, send_data, send_next_data, read_frame,
  }

  pub record GrpcServerConnection : Type 0 where
    pub conn : Conn
    pub factory : GrpcStreamFactory
    pub state : Sessions

  -- `read_exact(..).unwrap()` of 24 bytes from what the client sends, and the comparison. The bytes
  -- that follow stay in the socket.
  unfoldable pub connect : Bytes → ServerServiceDefinition → Outcome (GrpcServerConnection × Bytes)
  connect stream service_definition =
      if ltb (length stream) 24
      then panics unwrap_err
      else if bytes_eq (take 24 stream) preface
      then bind (expect (api.new_conn stream) unwrap_err) (λ conn. returns (
        record { conn = conn; factory = service_definition; state = api.new_sessions },
        drop 24 stream,
      ))
      else panics bad_preface

  unfoldable pub due : List (ℕ × GrpcStream http) → List (ℕ × Bytes)
  due [] = []
  due ((id, s) ∷ rest) = elim s.resp_buf [ [] ↦ due rest | b ∷ bs ↦ (id, s.resp_buf) ∷ due rest ]

  -- The responses that are due, by stream; it takes nothing from the streams.
  unfoldable pub handle_requests : GrpcServerConnection → List (ℕ × Bytes)
  unfolding due
  handle_requests self = due (iter self.state)

  abbrev pub response_headers : List http.Header
  response_headers =
      http.header (ascii ":status") (ascii "200")
      ∷ http.header (ascii "content-type") (ascii "application/grpc")
      ∷ []

  abbrev pub trailers : List http.Header
  trailers = http.header (ascii "grpc-status") (ascii "0") ∷ []

  -- The first error ends it.
  unfoldable pub prepare_responses : Conn → List (ℕ × Bytes) → Io http.HttpError Conn
  prepare_responses conn [] = returns (ok conn)
  prepare_responses conn ((id, body) ∷ responses) = do
    c1 ← returns (send_headers conn response_headers id false)
    c2 ← returns (send_data c1 body id false)
    c3 ← returns (send_headers c2 trailers id true)
    prepare_responses c3 responses

  -- `while let Sent = try!(self.send_next_data()) {}`
  unfoldable pub flush_streams : ℕ → Conn → Sessions → Io http.HttpError (Conn × Sessions)
  flush_streams zero conn state = stuck
  flush_streams (suc fuel) conn state = do
    (status, conn', state') ← returns (send_next_data conn state)
    elim status [ sent ↦ flush_streams fuel conn' state' | nothing ↦ returns (ok (conn', state')) ]

  unfoldable pub reap_streams : Sessions → Sessions
  reap_streams state = (get_closed state).1

  -- `fuel` bounds the data frames that one flush sends.
  unfoldable pub handle_next : ℕ → GrpcServerConnection → Io http.HttpError GrpcServerConnection
  unfolding reap_streams
  handle_next fuel self = do
    (conn, state) ← read_frame self.factory self.conn self.state
    let responses = handle_requests (record self { conn = conn; state = state })
    conn' ← prepare_responses conn responses
    (conn'', state') ← flush_streams fuel conn' state
    returns (ok (record self { conn = conn''; state = reap_streams state' }))

  -- The first `rounds` rounds of `run`, which goes on until one of them fails.
  unfoldable pub run : ℕ → ℕ → GrpcServerConnection → Io http.HttpError GrpcServerConnection
  run zero fuel self = returns (ok self)
  run (suc rounds) fuel self = do self' ← handle_next fuel self; run rounds fuel self'
