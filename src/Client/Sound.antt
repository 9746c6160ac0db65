-- ===== src/Client/Sound.antt =====
-- What a call of src/client.rs that returns has done, from its result.
use grpc_rust.Prelude.{ℕ, suc, ◌≡◌, subst, ◌∙◌, ap, sym, some, [], Bytes, ascii, ◌+◌, ◌<◌, arith}
use grpc_rust.Outcome.{
  returns, panics, stuck, expect, returns-injective, then-eq-returns, expect-eq-returns,
  unwrap_none,
}
use grpc_rust.Grpc.{parse_frame_completely}
use grpc_rust.Grpc.Word.{Endian}
use grpc_rust.Grpc.RoundTrip.{wire, write_frame_lem}
use grpc_rust.Method.{MethodDescriptor}
use grpc_rust.Solicit.{Solicit, ok, failed, Io}
use grpc_rust.Client.Call.{
  ClientHttp, GrpcClient, unwrap, request_body, response_value, request, get_response, call,
}
use mathlib.Core.Logic.{◌↔◌}
use grpc_rust.Client.Returned.{request_sound, get_response_sound}
use grpc_rust.Client.Wait.{get_response-finished}
use grpc_rust.Client.Unary.{Goes, Answers, request-Goes}

unwrap-eq-returns {ℓ} :
    {E : Type 0} {A : Type ℓ} (m : Io E A) {a : A} → unwrap m ≡ returns a → m ≡ returns (ok a)
unwrap-eq-returns (returns (ok a)) h = cc
unwrap-eq-returns (returns (failed e)) h = cc
unwrap-eq-returns (panics p) h = cc
unwrap-eq-returns stuck h = cc

module _ {http : Solicit} (api : ClientHttp http) where
  -- What a call has done: it has sent the serialised request in one frame, as the body of a stream's
  -- request under the path of the method; the response was complete on this stream after the frames
  -- that were read; and its body is one frame, which the method's marshaller reads as the value.
  pub record Called {ℓ κ} {Req : Type ℓ} {Resp : Type κ} (endian : Endian)
      (method : MethodDescriptor Req Resp) (req : Req) (self : GrpcClient api) (resp : Resp)
      (self' : GrpcClient api) : Type κ where
    pub req_bytes : Bytes
    pub written : method.req_marshaller.write req ≡ returns req_bytes
    pub id : ℕ
    pub sends : ℕ
    pub reads : ℕ
    pub sent_conn : api.Conn
    pub goes : Goes api self method.name (wire req_bytes) sends id sent_conn
    pub body : Bytes
    pub answers : Answers api id body reads sent_conn self'.conn
    pub resp_bytes : Bytes
    pub framed : parse_frame_completely endian body ≡ returns (some resp_bytes)
    pub read_as : method.resp_marshaller.read resp_bytes ≡ returns resp
    pub same_host : self'.host ≡ self.host

  call_sound {ℓ κ} :
      {Req : Type ℓ} {Resp : Type κ} (endian : Endian) (method : MethodDescriptor Req Resp)
      (req : Req) (fuel : ℕ) (self : GrpcClient api) (done : Resp × GrpcClient api)
      → call api fuel endian self req method ≡ returns done
      → Called endian method req self done.0 done.1
  unfolding call request_body response_value
  call_sound endian method req fuel self done h =
      then-eq-returns (request_body endian method req) _ h λ sent_body e1 h1.
        then-eq-returns (method.req_marshaller.write req) _ e1 λ req_bytes written framing.
          then-eq-returns
            (unwrap (request api fuel self (ascii "POST") method.name [] (some sent_body))) _ h1
            λ sent e2 h2.
              then-eq-returns (unwrap (get_response api fuel sent.1 sent.0)) _ h2 λ answer e3 h3.
                then-eq-returns (response_value endian method answer.0.body) _ h3 λ resp e4 made.
                  then-eq-returns (parse_frame_completely endian answer.0.body) _ e4
                    λ parsed framed h5.
                      then-eq-returns (expect parsed unwrap_none) _ h5 λ resp_bytes whole read_as.
                        let (sends, goes, kept) =
                          request_sound api fuel self method.name sent_body sent
                            (unwrap-eq-returns _ e2) in
                        let (reads, answers, kept') =
                          get_response_sound api fuel sent.0 sent.1 answer
                            (unwrap-eq-returns _ e3) in
                        subst (λ (d : _). Called endian method req self d.0 d.1)
                          (returns-injective made)
                          (record {
                            req_bytes = req_bytes;
                            written = written;
                            id = sent.0;
                            sends = sends;
                            reads = reads;
                            sent_conn = sent.1.conn;
                            goes =
                                subst (λ b. Goes api self method.name b sends sent.0 sent.1.conn)
                                  (sym (returns-injective framing)
                                    ∙ write_frame_lem endian [] req_bytes)
                                  goes;
                            body = answer.0.body;
                            answers = answers;
                            resp_bytes = resp_bytes;
                            framed = framed ∙ ap (λ p. returns p) (expect-eq-returns _ _ whole);
                            read_as = read_as;
                            same_host =
                                ap (λ (s : GrpcClient api). s.host) kept'
                                ∙ ap (λ (s : GrpcClient api). s.host) kept;
                          })

  call_complete {ℓ κ} :
      {Req : Type ℓ} {Resp : Type κ} (endian : Endian) (method : MethodDescriptor Req Resp)
      (req : Req) (self : GrpcClient api) (resp : Resp) (self' : GrpcClient api) (fuel : ℕ)
      (r : Called endian method req self resp self')
      → r.sends < fuel
      → r.reads < fuel
      → call api fuel endian self req method ≡ returns (resp, self')
  unfolding call request_body response_value
  call_complete endian method req self resp self' fuel r hs hr =
      let a = r.answers in
      rw (r.written, write_frame_lem endian [] r.req_bytes)
        (rw
          (request-Goes api fuel r.sends r.id self method.name (wire r.req_bytes) r.sent_conn r.goes
            hs)
          (rw
            (get_response-finished api r.reads fuel r.id self.host r.sent_conn self'.conn a.known
              a.stream a.headers a.is_known a.arrives a.found a.closed a.headers_there hr)
            (rw (a.body_there, r.framed, r.read_as)
              (ap (λ host. returns (resp, record { host = host; conn = self'.conn }))
                (sym r.same_host)))))

  -- A call returns a value and a client, on some number of frames to send and to read, exactly when
  -- its request has gone out as one frame on a stream under the path of the method, the response of
  -- this same stream was complete after the frames that were read, its body is one frame, and the
  -- method's marshaller reads the frame as the value.
  pub call-Called {ℓ κ} :
      {Req : Type ℓ} {Resp : Type κ} (endian : Endian) (method : MethodDescriptor Req Resp)
      (req : Req) (self : GrpcClient api) (resp : Resp) (self' : GrpcClient api)
      → ((fuel : ℕ) × (call api fuel endian self req method ≡ returns (resp, self')))
        ↔ Called endian method req self resp self'
  call-Called endian method req self resp self' = (
    λ r. call_sound endian method req r.0 self (resp, self') r.1,
    λ r. (
      suc (r.sends + r.reads),
      call_complete endian method req self resp self' (suc (r.sends + r.reads)) r (omega arith)
          (omega arith),
    ),
  )
