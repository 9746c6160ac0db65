-- ===== src/Client/Breaks.antt =====
-- An error of the HTTP/2 connection in a call of src/client.rs, at any point of it.
use grpc_rust.Prelude.{ℕ, zero, suc, ◌+◌, ◌<◌, ◌≡◌, true, none, some, [], Bytes, ascii, arith}
use grpc_rust.Outcome.{returns, panics, unwrap_err}
use grpc_rust.Grpc.Word.{Endian}
use grpc_rust.Grpc.RoundTrip.{wire}
use grpc_rust.Method.{MethodDescriptor}
use grpc_rust.Solicit.{Solicit, ok, failed}
use grpc_rust.Client.Call.{ClientHttp, GrpcClient, send_all, request, get_response, call}
use grpc_rust.Client.Wait.{Arrives, Pending, get_response-unknown}
use grpc_rust.Client.Unary.{Goes, request_headers, request-Goes, call-panics}
use grpc_rust.EndToEnd.{request_body-written}

module _ {http : Solicit} (api : ClientHttp http) where
  open api use {Conn}

  -- `n` frames of data have been sent, whether or not there are more.
  abbrev pub Sending : ℕ → Conn → Conn → Type 0
  Sending zero c c' = c ≡ c'
  Sending (suc n) c c' = (c1 : Conn) × (api.send_next_data c ≡ ok (true, c1)) × Sending n c1 c'

  -- The connection fails with an error in the call of a path with a body: when the request is
  -- started, after some frames of its data, by dropping the stream meanwhile, or while the response
  -- is pending. The number is that of the frames sent and read before.
  pub data Breaks (self : GrpcClient api) (path body : Bytes) : ℕ → http.HttpError → Type 0 where
    start_fails :
        {e : http.HttpError}
        → api.start_request self.conn
            (request_headers api self path)
            (api.set_full_data body api.new_stream)
          ≡ failed e
        → Breaks self path body 0 e
    send_fails :
        {e : http.HttpError} (n id : ℕ) (started_conn c : Conn) (known : api.Stream)
        → api.start_request self.conn
            (request_headers api self path)
            (api.set_full_data body api.new_stream)
          ≡ ok (id, started_conn)
        → api.get_stream started_conn id ≡ some known
        → Sending n (api.set_stream_id started_conn id) c
        → api.send_next_data c ≡ failed e
        → Breaks self path body n e
    dropped :
        (n id : ℕ) (c : Conn)
        → Goes api self path body n id c
        → api.get_stream c id ≡ none
        → Breaks self path body n http.unknown_stream_id
    read_fails :
        {e : http.HttpError} (sends reads id : ℕ) (c c' : Conn) (known : api.Stream)
        → Goes api self path body sends id c
        → api.get_stream c id ≡ some known
        → Arrives api id reads c c'
        → Pending api id c'
        → api.read_frame c' ≡ failed e
        → Breaks self path body (sends + reads) e

  send_all_fails :
      (n fuel : ℕ) (c c' : Conn) (e : http.HttpError)
      → Sending n c c'
      → api.send_next_data c' ≡ failed e
      → n < fuel
      → send_all api fuel c ≡ returns (failed e)
  unfolding send_all
  send_all_fails n zero c c' e s f h = absurd (omega arith)
  send_all_fails zero (suc fuel) c c' e s f h = rw (s, send_all) (rw f)
  send_all_fails (suc n) (suc fuel) c c' e (c1, sent, s) f h =
      rw sent (send_all_fails n fuel c1 c' e s f (omega arith))

  request_start_fails :
      (fuel : ℕ) (self : GrpcClient api) (path body : Bytes) (e : http.HttpError)
      → api.start_request self.conn
          (request_headers api self path)
          (api.set_full_data body api.new_stream)
        ≡ failed e
      → request api fuel self (ascii "POST") path [] (some body) ≡ returns (failed e)
  unfolding request
  request_start_fails fuel self path body e h = rw h

  request_send_fails :
      (fuel n id : ℕ) (self : GrpcClient api) (path body : Bytes) (started_conn c : Conn)
      (known : api.Stream) (e : http.HttpError)
      → api.start_request self.conn
          (request_headers api self path)
          (api.set_full_data body api.new_stream)
        ≡ ok (id, started_conn)
      → api.get_stream started_conn id ≡ some known
      → Sending n (api.set_stream_id started_conn id) c
      → api.send_next_data c ≡ failed e
      → n < fuel
      → request api fuel self (ascii "POST") path [] (some body) ≡ returns (failed e)
  unfolding request
  request_send_fails fuel n id self path body started_conn c known e started k s f h =
      rw started (rw k (rw (send_all_fails n fuel (api.set_stream_id started_conn id) c e s f h)))

  module _ {ℓ κ} {Req : Type ℓ} {Resp : Type κ} (endian : Endian)
      (method : MethodDescriptor Req Resp) (req : Req) (req_bytes : Bytes)
      (written : method.req_marshaller.write req ≡ returns req_bytes) where
    request_lost :
        (fuel : ℕ) (self : GrpcClient api) (e : http.HttpError)
        → request api fuel self (ascii "POST") method.name [] (some (wire req_bytes))
          ≡ returns (failed e)
        → call api fuel endian self req method ≡ panics unwrap_err
    unfolding call
    request_lost fuel self e h =
        rw (request_body-written method endian req req_bytes written) (rw h)

    response_lost :
        (fuel n id : ℕ) (self : GrpcClient api) (c : Conn) (e : http.HttpError)
        → Goes api self method.name (wire req_bytes) n id c
        → n < fuel
        → get_response api fuel (record self { conn = c }) id ≡ returns (failed e)
        → call api fuel endian self req method ≡ panics unwrap_err
    unfolding call
    response_lost fuel n id self c e g h lost =
        rw (request_body-written method endian req req_bytes written)
          (rw (request-Goes api fuel n id self method.name (wire req_bytes) c g h) (rw lost))

    -- A call whose request is written by its marshaller, and whose connection fails at any point, with any error,
    -- panics by an `unwrap`: when the
    -- request is started, while its data is sent, by dropping the stream, or while the response is
    -- pending; the fuel is above the number of the frames before.
    pub call-Breaks :
        (fuel n : ℕ) (self : GrpcClient api) (e : http.HttpError)
        → Breaks self method.name (wire req_bytes) n e
        → n < fuel
        → call api fuel endian self req method ≡ panics unwrap_err
    call-Breaks fuel n self e (start_fails f) h =
        request_lost fuel self e (request_start_fails fuel self method.name (wire req_bytes) e f)
    call-Breaks fuel n self e (send_fails n' id c1 c known started k s f) h =
        request_lost fuel self e (
          request_send_fails fuel n' id self method.name (wire req_bytes) c1 c known e started k s f
            h)
    call-Breaks fuel n self e (dropped n' id c g k) h =
        response_lost fuel n' id self c e g h
          (get_response-unknown api fuel id (record self { conn = c }) k)
    call-Breaks fuel n self e (read_fails sends reads id c c' known g k a p f) h =
        call-panics api endian method req req_bytes fuel sends reads id self c c' known e written g
          k a p f (omega arith) (omega arith)
