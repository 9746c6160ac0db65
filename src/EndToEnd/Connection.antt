-- ===== src/EndToEnd/Connection.antt =====
-- A unary call on a connection of src/server.rs that serves other calls at the same time.
use grpc_rust.Prelude.{
  ℕ, ◌==◌, false, ◌<◌, ◌≡◌, ◌∙◌, refl, ap, sym, true, none, some, List, [], ◌∷◌, ◌++◌, Bytes,
  concat, length, ascii, append_assoc,
}
use grpc_rust.Outcome.{returns, returns-injective}
use grpc_rust.Grpc.{parse_frame, parse_frame_completely}
use grpc_rust.Grpc.Word.{Endian}
use grpc_rust.Marshall.{Carries}
use grpc_rust.Marshall.Utf8.{is_utf8}
use grpc_rust.Method.{
  MethodDescriptor, MethodHandler, ServerMethod, ServerServiceDefinition, server_method,
}
use grpc_rust.Method.Find.{Absent}
use grpc_rust.Solicit.{Solicit, ok}
use grpc_rust.Server.Stream.{GrpcStream, set_state}
use grpc_rust.Server.Replies.{Fits}
use grpc_rust.Server.Connection.{ServerHttp, GrpcServerConnection, due, run}
use grpc_rust.Server.Responses.{Frame, Delivers, all_frames-due, response_frames, all_frames}
use grpc_rust.Server.Delivery.{response_among}
use grpc_rust.Server.Session.{Incoming, own, life, Dispatches}
use grpc_rust.Server.Session.Rounds.{Waits, lives}
use grpc_rust.Server.Session.Alone.{Ran, Survives, Survives-others, run_alone}
use grpc_rust.Client.Call.{ClientHttp, GrpcClient, new_stream, request_body, response_value}
use grpc_rust.EndToEnd.FreshStream.{HasHeaders, unary_request}
use grpc_rust.EndToEnd.RequestFrames.{
  HasStates, request_frames, life-request_frames, still_open-some,
}

-- A body that a client makes a response of is not empty.
response_nonempty {ℓ κ} :
    {Req : Type ℓ} {Resp : Type κ} (client : Endian) (method : MethodDescriptor Req Resp)
    (body : Bytes) (resp : Resp)
    → response_value client method body ≡ returns resp
    → (b : ℕ) × (bs : Bytes) × (body ≡ b ∷ bs)
response_nonempty client method [] resp h =
    unfold response_value parse_frame_completely parse_frame in cc
response_nonempty client method (b ∷ bs) resp h = (b, bs, refl)

module _ {http : Solicit} {api : ServerHttp http} {d : Delivers api} {server : Endian}
    (r : Dispatches d server) (service : ServerServiceDefinition) where
  open r use {stream_of}

  -- After a run, the response of a stream is among those that the last round has sent.
  pub run_sends :
      (rounds fuel id b : ℕ) (bs : Bytes) (self : GrpcServerConnection api)
      (frames : List (Incoming http)) (s : GrpcStream http)
      (all : Ran r service rounds fuel self frames)
      → life r.transitions server service id (own id frames) (stream_of self.state id)
        ≡ returns (some s)
      → s.resp_buf ≡ b ∷ bs
      → (before after : List (Frame http)) × (d.log all.self'.conn
          ≡ before ++ (response_frames api (id, s.resp_buf) ++ after))
  run_sends rounds fuel id b bs self frames s all lived said =
      let there : stream_of all.last id ≡ some s =
        still_open-some (stream_of all.last id) s
          (sym (all.dropped id) ∙ returns-injective (sym (all.alone id) ∙ lived)) in
      let (front, back, e) = r.iter_stream_of all.last id s there in
      (
        all.before ++ all_frames api (due api front),
        all_frames api (due api back),
        all.sent
            ∙ ap (λ (t : List (Frame http)). all.before ++ t)
                (sym (all_frames-due api (api.iter all.last)))
            ∙ ap (λ es. all.before ++ all_frames api (due api es)) e
            ∙ ap (λ (t : List (Frame http)). all.before ++ t)
                (response_among api front back id b bs s said)
            ∙ sym (append_assoc all.before (all_frames api (due api front)) _),
      )

module _ {ℓ κ} {Req : Type ℓ} {Resp : Type κ} {http : Solicit} (laws : HasHeaders http)
    (capi : ClientHttp http) {api : ServerHttp http} {d : Delivers api} (client : Endian)
    {server : Endian} (r : Dispatches d server) (states : HasStates r.transitions)
    (method : MethodDescriptor Req Resp) (handler : MethodHandler Req Resp)
    (front back : List ServerMethod) (first : Absent method.name front) where
  abbrev service : ServerServiceDefinition
  service = record { methods = front ++ server_method method handler ∷ back }

  -- A unary call among any other calls. A client and a server of either byte order share the method's
  -- descriptor, whose name is UTF-8, and no earlier method of the service has that name; its marshallers
  -- write `req` and `resp` as bytes that they read back as the same values. A connection waits for frames of which those of a stream that it does
  -- not know yet are, in their order, the headers that the client makes for the call, and then the body
  -- that it makes for the request, cut into DATA frames in any way; frames of other streams come between
  -- them in any interleaving. The handler answers `req` by `resp`; both fit a frame; and none of the other
  -- streams panics that is alone with its own frames. Then the loop goes through all frames without an error, and has
  -- sent a response on that stream, of whose body the client makes `resp`.
  pub call_served :
      (fuel id : ℕ) (conn : GrpcServerConnection api) (f : Incoming http)
      (frames : List (Incoming http)) (self : GrpcClient capi) (req : Req) (resp : Resp)
      (req_bytes resp_bytes body chunk : Bytes) (chunks : List Bytes)
      → 0 < fuel
      → Waits r service conn (f ∷ frames)
      → ((n : ℕ) → id == n ≡ false → Survives r service conn (f ∷ frames) n)
      → r.stream_of conn.state id ≡ none
      → own id (f ∷ frames)
        ≡ request_frames id
            (new_stream capi self (ascii "POST") method.name [] (some body)).0
            chunk
            chunks
      → is_utf8 method.name ≡ true
      → Carries method.req_marshaller req req_bytes
      → handler.handle req ≡ returns resp
      → Carries method.resp_marshaller resp resp_bytes
      → Fits req_bytes
      → Fits resp_bytes
      → request_body client method req ≡ returns body
      → concat (chunk ∷ chunks) ≡ body
      → (conn' : GrpcServerConnection api) × (before after : List (Frame http)) × (answer : Bytes)
        × (run api (length (f ∷ frames)) fuel conn ≡ returns (ok conn'))
        × (d.log conn'.conn ≡ before ++ (response_frames api (id, answer) ++ after))
        × (response_value client method answer ≡ returns resp)
  call_served fuel id conn f frames self req resp req_bytes resp_bytes body chunk chunks h waits
        others unknown mine u cq run_handler cp fq fp sent cut =
      let hs = (new_stream capi self (ascii "POST") method.name [] (some body)).0 in
      let (stream', served, _, answered) =
        unary_request laws capi client server method handler front back first self id req resp
          req_bytes resp_bytes body chunk chunks u cq run_handler cp fq fp sent cut in
      let lived =
        (λ i. lives r service id (mine i) (unknown i))
        ∙ life-request_frames states server service id hs chunk chunks stream' served in
      let all =
        run_alone r service fuel conn f frames h waits
          (Survives-others r service id conn (f ∷ frames) (_, lived) others) in
      let (b, bs, some_there) = response_nonempty client method stream'.resp_buf resp answered in
      let (before, after, log) =
        run_sends r service (length (f ∷ frames)) fuel id b bs conn (f ∷ frames)
          (set_state (r.transitions.close_remote stream'.state) stream') all lived
          (unfold set_state in some_there) in
      (all.self', before, after, stream'.resp_buf, all.ran, unfold set_state in log, answered)
