-- ===== src/Helloworld/Served.antt =====
-- The example server of grpc-examples/ and a request of its method.
use grpc_rust.Prelude.{
  ℕ, some, ◌-◌, ◌^◌, ◌<◌, ◌≡◌, ◌∙◌, refl, sym, true, List, [], ◌∷◌, ◌++◌, Bytes, concat, length,
  map, ascii, append-nil, arith,
}
use grpc_rust.Outcome.{returns}
use grpc_rust.Grpc.{parse_frame}
use grpc_rust.Grpc.RoundTrip.{wire}
use grpc_rust.Grpc.Word.{Endian}
use grpc_rust.Marshall.Utf8.{is_utf8, accepts}
use grpc_rust.Method.{handle_method, method_handler_fn}
use grpc_rust.Method.Dispatch.{handle_method-returns}
use grpc_rust.Solicit.{Solicit}
use grpc_rust.Server.Stream.{GrpcStream, create, with_id}
use grpc_rust.EndToEnd.FreshStream.{HasHeaders, set_headers-new_stream, served_request}
use grpc_rust.Server.Chunks.{feed}
use grpc_rust.Server.Replies.{Fits, replies-one, feed-replies}
use grpc_rust.Client.Call.{ClientHttp, GrpcClient, new_stream}
use grpc_rust.Helloworld.Runtime.{Runtime, IsProtobuf}
use grpc_rust.Helloworld.Fields.{IsText}
use grpc_rust.Helloworld.Request
use grpc_rust.Helloworld.Request.RoundTrip.{named, named-Carries}
use grpc_rust.Helloworld.Reply.RoundTrip.{saying, saying-Carries}
use grpc_rust.Helloworld.Greeter.{registered_method, service_definition}
use grpc_rust.Helloworld.Programs.{name_of_args, greeted, greeter_impl}

abbrev pub say_hello_path : Bytes
say_hello_path = ascii "/helloworld.Greeter/SayHello"

-- What is said to a name, and to a command line.
abbrev pub greeting : Bytes → Bytes
greeting [] = ascii "Hello world"
greeting (b ∷ bs) = ascii "Hello " ++ b ∷ bs

abbrev pub said : List Bytes → Bytes
said [] = ascii "Hello world"
said (program ∷ []) = ascii "Hello world"
said (program ∷ [] ∷ rest) = ascii "Hello world"
said (program ∷ (b ∷ bs) ∷ rest) = ascii "Hello " ++ b ∷ bs

pub said_lem : (args : List Bytes) → greeting (name_of_args args) ≡ said args
unfolding name_of_args
said_lem [] = refl
said_lem (program ∷ []) = refl
said_lem (program ∷ [] ∷ rest) = refl
said_lem (program ∷ (b ∷ bs) ∷ rest) = refl

greeting_utf8 : (name : Bytes) → is_utf8 name ≡ true → is_utf8 (greeting name) ≡ true
unfolding is_utf8
greeting_utf8 [] h = unfold accepts in refl
greeting_utf8 (b ∷ bs) h = unfold accepts in h

pub greeting-IsText :
    (name : Bytes) → is_utf8 name ≡ true → length name < 2 ^ 32 - 11 → IsText (greeting name)
greeting-IsText [] u h = (greeting_utf8 [] u, omega arith)
greeting-IsText (b ∷ bs) u h = (greeting_utf8 (b ∷ bs) u, omega arith)

module _ (rt : Runtime) (p : IsProtobuf rt) where
  open p use {field_bytes}

  impl_lem :
      (name : Bytes)
      → (greeter_impl rt).say_hello (named rt p name) ≡ returns (saying rt p (greeting name))
  unfolding greeter_impl greeted Request.get_name Request.set_name
  impl_lem [] = rw (p.as_ref_some []) refl
  impl_lem (b ∷ bs) = rw (p.as_ref_some (b ∷ bs)) refl

  -- The registered method turns the bytes of a request into those of the greeting.
  pub serve_hello :
      (name : Bytes)
      → IsText name
      → IsText (greeting name)
      → Fits (field_bytes 1 name)
      → Fits (field_bytes 1 (greeting name))
      → handle_method (service_definition rt (greeter_impl rt)) say_hello_path (field_bytes 1 name)
        ≡ returns (field_bytes 1 (greeting name))
  unfolding service_definition registered_method
  serve_hello name text said fq fr =
      handle_method-returns (registered_method rt)
        (method_handler_fn (λ q. (greeter_impl rt).say_hello q)) [] [] tt (named rt p name)
        (saying rt p (greeting name)) (field_bytes 1 name) (field_bytes 1 (greeting name))
        (named-Carries rt p name text fq) (unfold method_handler_fn in impl_lem name)
        (saying-Carries rt p (greeting name) said fr)

  -- The wire forms of the request and of the reply, for a command line.
  abbrev pub request_bytes : List Bytes → Bytes
  request_bytes args = field_bytes 1 (name_of_args args)

  abbrev pub reply_bytes : List Bytes → Bytes
  reply_bytes args = field_bytes 1 (greeting (name_of_args args))

  module _ {http : Solicit} (server : Endian) (args : List Bytes) where
    -- The server's side: the stream that has read the request.
    pub greeted_stream :
        (chunk : Bytes) (chunks : List Bytes) (stream : GrpcStream http)
        → is_utf8 (name_of_args args) ≡ true
        → length (name_of_args args) < 2 ^ 32 - 11
        → Fits (request_bytes args)
        → Fits (reply_bytes args)
        → concat (chunk ∷ chunks) ≡ wire (request_bytes args)
        → stream.service_definition ≡ service_definition rt (greeter_impl rt)
        → stream.path ≡ say_hello_path
        → stream.req_buf ≡ []
        → feed server (chunk ∷ chunks) stream
          ≡ returns (record stream {
            req_buf = [];
            resp_buf = stream.resp_buf ++ wire (reply_bytes args);
          })
    greeted_stream chunk chunks stream u small fits reply_fits cut service path idle =
        feed-replies server chunk chunks ((request_bytes args) ∷ []) [] stream idle
          (cut
            ∙ sym (append-nil (wire (request_bytes args)))
            ∙ sym (append-nil (wire (request_bytes args) ++ [])))
          (fits, tt) (unfold parse_frame in refl)
        ∙ rw (
            replies-one stream.service_definition stream.path (request_bytes args)
              (reply_bytes args)
              (rw (service, path)
                (serve_hello (name_of_args args) (u, omega arith)
                  (greeting-IsText (name_of_args args) u small) fits reply_fits)))

    -- A new stream of the example server that takes the headers of a request for the method, and then
    -- its body.
    pub greeted_request :
        (laws : HasHeaders http) (api : ClientHttp http) (sid : ℕ) (self : GrpcClient api)
        (chunk : Bytes) (chunks : List Bytes)
        → is_utf8 (name_of_args args) ≡ true
        → length (name_of_args args) < 2 ^ 32 - 11
        → Fits (request_bytes args)
        → Fits (reply_bytes args)
        → concat (chunk ∷ chunks) ≡ wire (request_bytes args)
        → (stream' : GrpcStream http) × (served_request server
              (service_definition rt (greeter_impl rt))
              sid
              (new_stream api self
                (ascii "POST")
                say_hello_path
                []
                (some (wire (request_bytes args)))).0
              (chunk ∷ chunks)
            ≡ returns stream')
          × (stream'.resp_buf ≡ wire (reply_bytes args))
    unfolding create with_id
    greeted_request laws api sid self chunk chunks u small fq fr cut =
        let body = wire (request_bytes args) in
        let headers = (new_stream api self (ascii "POST") say_hello_path [] (some body)).0 in
        let fresh = create http (service_definition rt (greeter_impl rt)) sid in
        let asked = record fresh {
          path = say_hello_path;
          headers = some (map http.to_owned headers);
        } in
        (
          record asked { req_buf = []; resp_buf = wire (reply_bytes args) },
          rw
              (set_headers-new_stream laws api self (ascii "POST") say_hello_path body fresh
                (unfold is_utf8 in refl))
              (greeted_stream chunk chunks asked u small fq fr cut refl refl refl),
          refl,
        )
