-- ===== src/Helloworld/Greet.antt =====
-- The example client of grpc-examples/ against the example server, from the command line to the reply.
use grpc_rust.Prelude.{
  ℕ, Option, some, ◌-◌, ◌^◌, ◌<◌, ◌≡◌, true, List, [], ◌∷◌, Bytes, concat, length, ascii, arith,
}
use grpc_rust.Outcome.{returns}
use grpc_rust.Grpc.RoundTrip.{wire}
use grpc_rust.Grpc.Word.{Endian}
use grpc_rust.Marshall.Utf8.{is_utf8}
use grpc_rust.Solicit.{Solicit}
use grpc_rust.Server.Stream.{GrpcStream}
use grpc_rust.EndToEnd.FreshStream.{HasHeaders, served_request}
use grpc_rust.Server.Replies.{Fits}
use grpc_rust.Client.Call
use grpc_rust.Client.Call.{ClientHttp, GrpcClient, new_stream}
use grpc_rust.Client.Unary.{Goes, Answers, call-returns}
use grpc_rust.Helloworld.Runtime.{Runtime, IsProtobuf}
use grpc_rust.Helloworld.Request.RoundTrip.{named, named-Carries}
use grpc_rust.Helloworld.Reply.RoundTrip.{saying, saying-Carries}
use grpc_rust.Helloworld.Greeter.{new, client_method, service_definition, say_hello}
use grpc_rust.Helloworld.Programs.{name_of_args, greeter_impl, client_main}
use grpc_rust.Helloworld.Served.{
  say_hello_path, greeting, said, said_lem, greeting-IsText, request_bytes, reply_bytes,
  greeted_request,
}

-- A client of the local server.
abbrev pub local : {http : Solicit} {api : ClientHttp http} → api.Conn → GrpcClient api
local c = record { host = ascii "localhost"; conn = c }

module _ (rt : Runtime) (p : IsProtobuf rt) {http : Solicit} (client server : Endian)
    (args : List Bytes) where
  -- The example client, run with these arguments against the example server. The name is UTF-8 and
  -- both messages fit. The client's connection to localhost, port 50051, opens, and its request goes
  -- out; a new stream of the server takes the headers of that request, and its body cut in any way;
  -- what the stream then buffers is what the client receives. Then the client prints the reply
  -- "Hello " with the name, or with "world" for an empty one or none.
  pub greet :
      (laws : HasHeaders http) (api : ClientHttp http) (connect : Bytes → ℕ → Option api.Conn)
      (fuel sends reads id sid : ℕ) (opened c c' : api.Conn) (chunk : Bytes) (chunks : List Bytes)
      → is_utf8 (name_of_args args) ≡ true
      → length (name_of_args args) < 2 ^ 32 - 11
      → Fits (request_bytes rt p args)
      → Fits (reply_bytes rt p args)
      → connect (ascii "localhost") 50051 ≡ some opened
      → Goes api (local opened) say_hello_path (wire (request_bytes rt p args)) sends id c
      → concat (chunk ∷ chunks) ≡ wire (request_bytes rt p args)
      → Answers api id (wire (reply_bytes rt p args)) reads c c'
      → sends < fuel
      → reads < fuel
      → (stream' : GrpcStream http) × (served_request server
            (service_definition rt (greeter_impl rt))
            sid
            (new_stream api
              (local opened)
              (ascii "POST")
              say_hello_path
              []
              (some (wire (request_bytes rt p args)))).0
            (chunk ∷ chunks)
          ≡ returns stream')
        × (stream'.resp_buf ≡ wire (reply_bytes rt p args))
        × (client_main rt api connect fuel client args
            ≡ returns (saying rt p (said args), record { grpc_client = local c' }))
  unfolding client_main new Call.new say_hello client_method
  greet laws api connect fuel sends reads id sid opened c c' chunk chunks u small fq fr there goes
        cut answers hs hr =
      let (stream', served, buffered) =
        greeted_request rt p server args laws api sid (local opened) chunk chunks u small fq fr
          cut in
      (
        stream',
        served,
        buffered,
        rw
            (
              there,
              call-returns api client (client_method rt) (named rt p (name_of_args args))
                  (saying rt p (greeting (name_of_args args))) (request_bytes rt p args)
                  (reply_bytes rt p args) fuel sends reads id (local opened) c c'
                  (named-Carries rt p (name_of_args args) (u, omega arith) fq).written
                  (saying-Carries rt p (greeting (name_of_args args))
                    (greeting-IsText (name_of_args args) u small) fr).read_back
                  fr goes answers hs hr,
            )
            (λ i. returns (saying rt p (said_lem args i), record { grpc_client = local c' })),
      )
