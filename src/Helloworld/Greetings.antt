-- ===== src/Helloworld/Greetings.antt =====
-- The example server of grpc-examples/ on a connection on which many clients greet at the same time.
use grpc_rust.Prelude.{
  ℕ, Option, none, some, ◌-◌, ◌^◌, ◌<◌, ◌≡◌, ◌∙◌, refl, ap, subst, true, List, [], ◌∷◌, ◌++◌, Bytes,
  concat, length, ascii,
}
use grpc_rust.Outcome.{returns}
use grpc_rust.Grpc.RoundTrip.{wire}
use grpc_rust.Grpc.Word.{Endian}
use grpc_rust.Marshall.Utf8.{is_utf8}
use grpc_rust.Method.{ServerServiceDefinition}
use grpc_rust.Solicit.{Solicit, ok}
use grpc_rust.Server.Stream.{GrpcStream, set_state}
use grpc_rust.Server.Replies.{Fits}
use grpc_rust.Server.Connection.{ServerHttp, GrpcServerConnection, run}
use grpc_rust.Server.Responses.{Frame, Delivers, response_frames}
use grpc_rust.Server.Session.{Incoming, own, life, Dispatches}
use grpc_rust.Server.Session.Rounds.{Waits, lives, new_sessions-IsFine}
use grpc_rust.Server.Session.Alone.{Returns, run_alone}
use grpc_rust.Client.Call.{ClientHttp, GrpcClient, new_stream, response_value}
use grpc_rust.EndToEnd.{response_value-wire}
use grpc_rust.EndToEnd.FreshStream.{HasHeaders}
use grpc_rust.EndToEnd.RequestFrames.{HasStates, request_frames, life-request_frames}
use grpc_rust.EndToEnd.Connection.{run_sends}
use grpc_rust.Helloworld.Runtime.{Runtime, IsProtobuf}
use grpc_rust.Helloworld.Reply.RoundTrip.{saying, saying-Carries}
use grpc_rust.Helloworld.Greeter.{client_method, service_definition}
use grpc_rust.Helloworld.Programs.{name_of_args, greeter_impl}
use grpc_rust.Helloworld.Served.{
  say_hello_path, greeting, said, said_lem, greeting-IsText, request_bytes, reply_bytes,
  greeted_request,
}

-- A run of the example client: its connection, its command line, and how its body is cut.
pub record Greeting {http : Solicit} (capi : ClientHttp http) : Type 0 where
  pub client : GrpcClient capi
  pub args : List Bytes
  pub chunk : Bytes
  pub chunks : List Bytes

abbrev service : Runtime → ServerServiceDefinition
service rt = service_definition rt (greeter_impl rt)

-- The example server, new on this connection.
abbrev pub greeter_connection :
    {http : Solicit} {api : ServerHttp http} → Runtime → api.Conn → GrpcServerConnection api
greeter_connection {http} {api} rt c = record {
  conn = c;
  factory = service rt;
  state = api.new_sessions;
}

module _ (rt : Runtime) (p : IsProtobuf rt) {http : Solicit} {capi : ClientHttp http} where
  -- The name is UTF-8, both messages fit, and the chunks are the body.
  pub record IsGreeting (g : Greeting capi) : Type 0 where
    pub utf8 : is_utf8 (name_of_args g.args) ≡ true
    pub small : length (name_of_args g.args) < 2 ^ 32 - 11
    pub request_fits : Fits (request_bytes rt p g.args)
    pub reply_fits : Fits (reply_bytes rt p g.args)
    pub cut : concat (g.chunk ∷ g.chunks) ≡ wire (request_bytes rt p g.args)

  -- The frames on a stream on which a client greets, or none does.
  abbrev pub greeting_frames : ℕ → Option (Greeting capi) → List (Incoming http)
  greeting_frames id none = []
  greeting_frames id (some g) =
      request_frames id
        (new_stream capi g.client (ascii "POST") say_hello_path []
          (some (wire (request_bytes rt p g.args)))).0
        g.chunk g.chunks

  abbrev pub AreGreetings : Option (Greeting capi) → Type 0
  AreGreetings none = Unit
  AreGreetings (some g) = IsGreeting g

  module _ (laws : HasHeaders http) {api : ServerHttp http} {d : Delivers api} {server : Endian}
      (r : Dispatches d server) (states : HasStates r.transitions) where
    open r use {incoming, stream_of}

    greeting_lives :
        (id : ℕ) (g : Greeting capi)
        → IsGreeting g
        → (s : GrpcStream http) × (lives r (service rt) id (greeting_frames id (some g)) none
            ≡ returns (some s))
          × (s.resp_buf ≡ wire (reply_bytes rt p g.args))
    greeting_lives id g is =
        let (s, served, buffered) =
          greeted_request rt p server g.args laws capi id g.client g.chunk g.chunks is.utf8 is.small
            is.request_fits is.reply_fits is.cut in
        (
          set_state (r.transitions.close_remote s.state) s,
          life-request_frames states server (service rt) id _ g.chunk g.chunks s served,
          unfold set_state in buffered,
        )

    greeting_lived :
        (id : ℕ) (g : Option (Greeting capi))
        → AreGreetings g
        → (o : Option (GrpcStream http)) × (lives r (service rt) id (greeting_frames id g) none
            ≡ returns o)
    greeting_lived id none is = (none, unfold life in refl)
    greeting_lived id (some g) is = let (s, lived, _) = greeting_lives id g is in (some s, lived)

    survives :
        (c : api.Conn) (frames : List (Incoming http)) (greetings : ℕ → Option (Greeting capi))
        → ((n : ℕ) → own n frames ≡ greeting_frames n (greetings n))
        → ((n : ℕ) → AreGreetings (greetings n))
        → Returns r (service rt) (greeter_connection rt c) frames
    survives c frames greetings streams fine n =
        let (o, lived) = greeting_lived n (greetings n) (fine n) in
        (o, (λ i. lives r (service rt) n (streams n i) (r.stream_of_new n i)) ∙ lived)

    -- Clients greet on a new connection of the example server, all at the same time. Their frames come
    -- in in any interleaving, with frames that concern no stream between them: the frames of each stream
    -- are, in their order, the headers and the body that the example client makes for its command line,
    -- the body cut into DATA frames in any way, and both its messages fit; or there are none. Then the
    -- connection's loop goes through all frames without an error, and each greeting has been answered: on
    -- its stream there went out a response, of whose body the client makes the reply "Hello " with the
    -- name, or with "world" for an empty one or none.
    pub greetings_served :
        (client : Endian) (fuel id : ℕ) (c : api.Conn) (f : Incoming http)
        (frames : List (Incoming http)) (greetings : ℕ → Option (Greeting capi)) (g : Greeting capi)
        → 0 < fuel
        → incoming c ≡ f ∷ frames
        → ((n : ℕ) → own n (f ∷ frames) ≡ greeting_frames n (greetings n))
        → ((n : ℕ) → AreGreetings (greetings n))
        → greetings id ≡ some g
        → (conn' : GrpcServerConnection api) × (before after : List (Frame http)) × (run api
              (length (f ∷ frames))
              fuel
              (greeter_connection rt c)
            ≡ returns (ok conn'))
          × (d.log conn'.conn
              ≡ before ++ (response_frames api (id, wire (reply_bytes rt p g.args)) ++ after))
          × (response_value client (client_method rt) (wire (reply_bytes rt p g.args))
              ≡ returns (saying rt p (said g.args)))
    unfolding client_method
    greetings_served client fuel id c f frames greetings g h arrive streams fine there =
        let conn = greeter_connection rt c in
        let waits : Waits r (service rt) conn (f ∷ frames) = record {
          serves = refl;
          waiting = arrive;
          fine = new_sessions-IsFine r (service rt);
        } in
        let is : IsGreeting g = subst AreGreetings there (fine id) in
        let (s, lived, buffered) = greeting_lives id g is in
        let all =
          run_alone r (service rt) fuel conn f frames h waits
            (survives c (f ∷ frames) greetings streams fine) in
        let own_frames = streams id ∙ ap (greeting_frames id) there in
        let (before, after, log) =
          run_sends r (service rt) (length (f ∷ frames)) fuel id 0 _ conn (f ∷ frames) s all
            ((λ i. lives r (service rt) id (own_frames i) (r.stream_of_new id i)) ∙ lived)
            buffered in
        (
          all.self',
          before,
          after,
          all.ran,
          log ∙ ap (λ b. before ++ (response_frames api (id, b) ++ after)) buffered,
          response_value-wire (client_method rt) client
                (saying rt p (greeting (name_of_args g.args))) (reply_bytes rt p g.args)
                (saying-Carries rt p (greeting (name_of_args g.args))
                  (greeting-IsText (name_of_args g.args) is.utf8 is.small) is.reply_fits).read_back
                is.reply_fits
              ∙ ap (λ said. returns (saying rt p said)) (said_lem g.args),
        )
