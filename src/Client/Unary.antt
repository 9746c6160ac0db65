-- ===== src/Client/Unary.antt =====
-- A call of src/client.rs from the client's side: what it hands to the HTTP/2 connection, and what it
-- makes of what arrives.
use grpc_rust.Prelude.{
  ℕ, zero, suc, ◌<◌, ◌≡◌, true, false, some, List, [], ◌∷◌, Bytes, ascii, arith,
}
use grpc_rust.Outcome.{returns, panics, unwrap_err}
use grpc_rust.Grpc.Word.{Endian}
use grpc_rust.Grpc.RoundTrip.{wire}
use grpc_rust.Method.{MethodDescriptor}
use grpc_rust.Solicit.{Solicit, ok, failed}
use grpc_rust.Server.Replies.{Fits}
use grpc_rust.Client.Call.{ClientHttp, GrpcClient, send_all, request, call}
use grpc_rust.Client.Wait.{Arrives, Pending, get_response-finished, get_response-fails}
use grpc_rust.EndToEnd.{request_body-written, response_value-wire}

module _ {http : Solicit} (api : ClientHttp http) where
  open api use {Conn}

  -- `n` frames of data are sent, then nothing is left to send.
  abbrev pub Sends : ℕ → Conn → Conn → Type 0
  Sends zero c c' = api.send_next_data c ≡ ok (false, c')
  Sends (suc n) c c' = (c1 : Conn) × (api.send_next_data c ≡ ok (true, c1)) × Sends n c1 c'

  send_all-Sends :
      (n fuel : ℕ) (c c' : Conn) → Sends n c c' → n < fuel → send_all api fuel c ≡ returns (ok c')
  unfolding send_all
  send_all-Sends n zero c c' s h = absurd (omega arith)
  send_all-Sends zero (suc fuel) c c' s h = rw s
  send_all-Sends (suc n) (suc fuel) c c' (c1, e, s) h =
      rw e (send_all-Sends n fuel c1 c' s (omega arith))

  -- The headers of a call's request.
  abbrev pub request_headers : GrpcClient api → Bytes → List http.Header
  request_headers self path =
      http.header (ascii ":method") (ascii "POST")
      ∷ http.header (ascii ":path") path
      ∷ http.header (ascii ":authority") self.host
      ∷ http.header (ascii ":scheme") (api.scheme self.conn)
      ∷ []

  -- A request of a path and a body that the connection starts as stream `id` and sends in `n` frames
  -- of data; `c'` is the connection afterwards.
  pub record Goes (self : GrpcClient api) (path body : Bytes) (n id : ℕ) (c' : Conn) : Type 0 where
    pub started_conn : Conn
    pub known : api.Stream
    pub started :
        api.start_request self.conn
          (request_headers self path)
          (api.set_full_data body api.new_stream)
        ≡ ok (id, started_conn)
    pub is_known : api.get_stream started_conn id ≡ some known
    pub sent : Sends n (api.set_stream_id started_conn id) c'

  pub request-Goes :
      (fuel n id : ℕ) (self : GrpcClient api) (path body : Bytes) (c' : Conn)
      → Goes self path body n id c'
      → n < fuel
      → request api fuel self (ascii "POST") path [] (some body)
        ≡ returns (ok (id, record self { conn = c' }))
  unfolding request
  request-Goes fuel n id self path body c' g h =
      rw g.started (
        rw g.is_known
          (rw (send_all-Sends n fuel (api.set_stream_id g.started_conn id) c' g.sent h)))

  -- On a connection that knows stream `id`, the response with this body is complete after `n` frames
  -- have been read; `c'` is the connection then.
  pub record Answers (id : ℕ) (body : Bytes) (n : ℕ) (c c' : Conn) : Type 0 where
    pub known : api.Stream
    pub stream : api.Stream
    pub headers : List http.Header
    pub is_known : api.get_stream c id ≡ some known
    pub arrives : Arrives api id n c c'
    pub found : api.get_stream c' id ≡ some stream
    pub closed : api.is_closed stream ≡ true
    pub headers_there : api.stream_headers stream ≡ some headers
    pub body_there : api.stream_body stream ≡ body

  -- A call whose request goes out as one framed message under the method's name, in `sends` frames
  -- of data, and whose response is complete after `reads` frames, with one framed message that fits
  -- as its body, returns the value of that message, on any fuel above both numbers.
  pub call-returns {ℓ κ} :
      {Req : Type ℓ} {Resp : Type κ} (endian : Endian) (method : MethodDescriptor Req Resp)
      (req : Req) (resp : Resp) (req_bytes resp_bytes : Bytes) (fuel sends reads id : ℕ)
      (self : GrpcClient api) (c c' : Conn)
      → method.req_marshaller.write req ≡ returns req_bytes
      → method.resp_marshaller.read resp_bytes ≡ returns resp
      → Fits resp_bytes
      → Goes self method.name (wire req_bytes) sends id c
      → Answers id (wire resp_bytes) reads c c'
      → sends < fuel
      → reads < fuel
      → call api fuel endian self req method ≡ returns (resp, record self { conn = c' })
  unfolding call
  call-returns endian method req resp req_bytes resp_bytes fuel sends reads id self c c' cq cp fits
        g a hs hr =
      rw (request_body-written method endian req req_bytes cq) (
        rw (request-Goes fuel sends id self method.name (wire req_bytes) c g hs) (
          rw
            (get_response-finished api reads fuel id self.host c c' a.known a.stream a.headers
              a.is_known a.arrives a.found a.closed a.headers_there hr)
            (rw a.body_there (rw (response_value-wire method endian resp resp_bytes cp fits)))))

  -- A call whose request goes out, and whose connection fails after `reads` frames while the response
  -- is pending, panics by an `unwrap`, whatever the error; `known` is the stream at first.
  pub call-panics {ℓ κ} :
      {Req : Type ℓ} {Resp : Type κ} (endian : Endian) (method : MethodDescriptor Req Resp)
      (req : Req) (req_bytes : Bytes) (fuel sends reads id : ℕ) (self : GrpcClient api)
      (c c' : Conn) (known : api.Stream) (e : http.HttpError)
      → method.req_marshaller.write req ≡ returns req_bytes
      → Goes self method.name (wire req_bytes) sends id c
      → api.get_stream c id ≡ some known
      → Arrives api id reads c c'
      → Pending api id c'
      → api.read_frame c' ≡ failed e
      → sends < fuel
      → reads < fuel
      → call api fuel endian self req method ≡ panics unwrap_err
  unfolding call
  call-panics endian method req req_bytes fuel sends reads id self c c' known e cq g k a p r hs hr =
      rw (request_body-written method endian req req_bytes cq) (
        rw (request-Goes fuel sends id self method.name (wire req_bytes) c g hs)
          (rw (get_response-fails api reads fuel id self.host c c' known e k a p r hr)))
