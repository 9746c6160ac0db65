-- ===== src/EndToEnd.antt =====
-- A call of src/client.rs against a stream of src/server.rs: from the request value to the response
-- value, through both marshallers, both framings and the dispatch.
pub mod FreshStream
pub mod RequestFrames
pub mod Connection
use grpc_rust.Prelude.{◌≡◌, ◌∙◌, refl, sym, List, [], ◌∷◌, ◌++◌, Bytes, concat, append-nil, lt→ltb}
use grpc_rust.Outcome.{returns, returns-injective}
use grpc_rust.Grpc.{parse_frame}
use grpc_rust.Grpc.Word.{Endian}
use grpc_rust.Grpc.RoundTrip.{wire, write_frame_lem, parse_frame_completely-wire}
use grpc_rust.Marshall.{Carries}
use grpc_rust.Method.{MethodDescriptor, MethodHandler, ServerMethod, server_method, handle_method}
use grpc_rust.Method.Find.{Absent}
use grpc_rust.Method.Dispatch.{handle_method-returns}
use grpc_rust.Solicit.{Solicit}
use grpc_rust.Server.Stream.{GrpcStream}
use grpc_rust.Server.Chunks.{feed}
use grpc_rust.Server.Replies.{Fits, replies-one, wires, feed-replies}
use grpc_rust.Client.Call.{request_body, response_value}

module _ {ℓ κ} {Req : Type ℓ} {Resp : Type κ} (method : MethodDescriptor Req Resp) where
  -- The body that the client sends is one frame, that of the serialised request.
  pub request_body-written :
      (endian : Endian) (req : Req) (bytes : Bytes)
      → method.req_marshaller.write req ≡ returns bytes
      → request_body endian method req ≡ returns (wire bytes)
  unfolding request_body
  request_body-written endian req bytes written = rw written (rw (write_frame_lem endian [] bytes))

  pub request_body-wire :
      (endian : Endian) (req : Req) (bytes : Bytes)
      → Carries method.req_marshaller req bytes
      → request_body endian method req ≡ returns (wire bytes)
  request_body-wire endian req bytes c = request_body-written endian req bytes c.written

  -- The cut body is the wire format of the request.
  whole :
      (client : Endian) (req : Req) (req_bytes body cut : Bytes)
      → Carries method.req_marshaller req req_bytes
      → request_body client method req ≡ returns body
      → cut ≡ body
      → cut ≡ wires (req_bytes ∷ []) ++ []
  whole client req req_bytes body cut cq sent e =
      e
      ∙ returns-injective (sym sent ∙ request_body-wire client req req_bytes cq)
      ∙ sym (append-nil (wire req_bytes))
      ∙ sym (append-nil (wire req_bytes ++ []))

  -- The client reads a body of one frame that fits as the value that the frame stands for.
  pub response_value-wire :
      (endian : Endian) (resp : Resp) (bytes : Bytes)
      → method.resp_marshaller.read bytes ≡ returns resp
      → Fits bytes
      → response_value endian method (wire bytes) ≡ returns resp
  unfolding response_value
  response_value-wire endian resp bytes read fits =
      rw (parse_frame_completely-wire endian bytes, lt→ltb _ _ fits) read

module _ {ℓ κ} {Req : Type ℓ} {Resp : Type κ} {http : Solicit} (client server : Endian)
    (method : MethodDescriptor Req Resp) (handler : MethodHandler Req Resp)
    (front back : List ServerMethod) (first : Absent method.name front) where
  -- The method's answer, as the stream's service gives it.
  answer :
      (req : Req) (resp : Resp) (req_bytes resp_bytes : Bytes) (stream : GrpcStream http)
      → Carries method.req_marshaller req req_bytes
      → handler.handle req ≡ returns resp
      → Carries method.resp_marshaller resp resp_bytes
      → stream.service_definition
        ≡ record { methods = front ++ server_method method handler ∷ back }
      → stream.path ≡ method.name
      → handle_method stream.service_definition stream.path req_bytes ≡ returns resp_bytes
  answer req resp req_bytes resp_bytes stream cq run cp service path =
      rw (service, path)
        (handle_method-returns method handler front back first req resp req_bytes resp_bytes cq run
          cp)

  -- A unary call, end to end. A client and a server of either byte order share the method's
  -- descriptor. The request's body reaches a new stream for the method, cut into DATA frames in any
  -- way; the handler answers `req` by `resp`; both fit a frame. Then the stream buffers a response
  -- body, with no request bytes left, and the client makes `resp` of that body.
  pub unary_call :
      (req : Req) (resp : Resp) (req_bytes resp_bytes body : Bytes) (chunk : Bytes)
      (chunks : List Bytes) (stream : GrpcStream http)
      → Carries method.req_marshaller req req_bytes
      → handler.handle req ≡ returns resp
      → Carries method.resp_marshaller resp resp_bytes
      → Fits req_bytes
      → Fits resp_bytes
      → request_body client method req ≡ returns body
      → concat (chunk ∷ chunks) ≡ body
      → stream.service_definition
        ≡ record { methods = front ++ server_method method handler ∷ back }
      → stream.path ≡ method.name
      → stream.req_buf ≡ []
      → stream.resp_buf ≡ []
      → (stream' : GrpcStream http) × (feed server (chunk ∷ chunks) stream ≡ returns stream')
        × (stream'.req_buf ≡ [])
        × (response_value client method stream'.resp_buf ≡ returns resp)
  unary_call req resp req_bytes resp_bytes body chunk chunks stream cq run cp fq fp sent cut service
        path idle fresh =
      (
        record stream { req_buf = []; resp_buf = stream.resp_buf ++ wire resp_bytes },
        feed-replies server chunk chunks (req_bytes ∷ []) [] stream idle
              (whole method client req req_bytes body (concat (chunk ∷ chunks)) cq sent cut)
              (fq, tt) (unfold parse_frame in refl)
            ∙ rw (
                replies-one stream.service_definition stream.path req_bytes resp_bytes
                  (answer req resp req_bytes resp_bytes stream cq run cp service path)),
        refl,
        rw fresh (response_value-wire method client resp resp_bytes cp.read_back fp),
      )
