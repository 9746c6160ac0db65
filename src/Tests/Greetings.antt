-- ===== src/Tests/Greetings.antt =====
-- Two runs of the example client at once on the connection of Tests.Multiplexing.
use grpc_rust.Prelude.{
  ℕ, ◌≡◌, ◌∙◌, refl, subst, true, false, Option, none, some, List, [], ◌∷◌, ◌++◌, Bytes, ascii,
  arith, ◌==◌, if◌then◌else◌, filter, Bool-cases, inl, inr,
}
use grpc_rust.Outcome.{returns}
use grpc_rust.Grpc.RoundTrip.{wire}
use grpc_rust.Grpc.Word.{big}
use grpc_rust.Marshall.Utf8.{is_utf8}
use grpc_rust.Solicit.{ok}
use grpc_rust.Server.Connection.{GrpcServerConnection, run}
use grpc_rust.Server.Responses.{Frame, response_frames}
use grpc_rust.Server.Session.{Incoming, headers_in, data_in, other_in, own}
use grpc_rust.Client.Call.{new_stream, response_value}
use grpc_rust.Helloworld.Reply.RoundTrip.{saying}
use grpc_rust.Helloworld.Greeter.{client_method}
use grpc_rust.Helloworld.Programs.{name_of_args}
use grpc_rust.Helloworld.Served.{say_hello_path}
use grpc_rust.Helloworld.Greetings.{
  Greeting, IsGreeting, AreGreetings, greeting_frames, greeter_connection, greetings_served,
}
use grpc_rust.Tests.Fixtures.{toy_http}
use grpc_rust.Tests.Clients.{echoing, caller, done_conn}
use grpc_rust.Tests.Requests.{toy-HasHeaders}
use grpc_rust.Tests.Protobufs.{toy_rt, toy_protobuf}
use grpc_rust.Tests.Multiplexing.{Wire, multiplexing, dispatches}
use grpc_rust.Tests.Interleaved.{toy-HasStates, own_none}

-- One client is given a name, the other none.
abbrev zed : Bytes
zed = ascii "Zed"

abbrev named_client : Greeting echoing
named_client = record {
  client = caller done_conn;
  args = ascii "greeter_client" ∷ zed ∷ [];
  chunk = 0 ∷ 0 ∷ [];
  chunks = (0 ∷ 0 ∷ 5 ∷ 10 ∷ 3 ∷ zed) ∷ [];
}

abbrev default_client : Greeting echoing
default_client = record {
  client = caller done_conn;
  args = ascii "greeter_client" ∷ [];
  chunk = 0 ∷ 0 ∷ 0 ∷ 0 ∷ 7 ∷ [];
  chunks = (10 ∷ 5 ∷ ascii "world") ∷ [];
}

abbrev clients : ℕ → Option (Greeting echoing)
clients n = if 1 == n then some named_client else if 3 == n then some default_client else none

abbrev hello_headers : Bytes → List (Bytes × Bytes)
hello_headers body =
    (new_stream echoing (caller done_conn) (ascii "POST") say_hello_path [] (some (wire body))).0

abbrev first_frame : Incoming toy_http
first_frame = headers_in 1 (hello_headers (10 ∷ 3 ∷ zed)) false

abbrev later_frames : List (Incoming toy_http)
later_frames =
    data_in 1 (0 ∷ 0 ∷ []) false
    ∷ headers_in 3 (hello_headers (10 ∷ 5 ∷ ascii "world")) false
    ∷ data_in 3 (0 ∷ 0 ∷ 0 ∷ 0 ∷ 7 ∷ []) false
    ∷ other_in
    ∷ data_in 1 (0 ∷ 0 ∷ 5 ∷ 10 ∷ 3 ∷ zed) true
    ∷ data_in 3 (10 ∷ 5 ∷ ascii "world") true
    ∷ []

abbrev wire_in : Wire
wire_in = record { sent = []; waiting = first_frame ∷ later_frames }

abbrev OwnFrames : ℕ → Type 0
OwnFrames n = own n (first_frame ∷ later_frames) ≡ greeting_frames toy_rt toy_protobuf n (clients n)

first_own : OwnFrames 1
unfolding filter new_stream name_of_args toy_protobuf
first_own = refl

second_own : OwnFrames 3
unfolding filter new_stream name_of_args toy_protobuf
second_own = refl

others_own : (n : ℕ) → 1 == n ≡ false → 3 == n ≡ false → OwnFrames n
others_own n e1 e3 =
    own_none n (first_frame ∷ later_frames) (e1, (e1, (e3, (e3, (refl, (e1, (e3, tt)))))))
    ∙ rw (e1, e3) refl

all_own : (n : ℕ) → OwnFrames n
all_own n = elim (Bool-cases (1 == n)) [
  | inl e ↦ let same : 1 ≡ n = ground arith in subst OwnFrames same first_own
  | inr e1 ↦ elim (Bool-cases (3 == n)) [
    | inl e ↦ let same : 3 ≡ n = ground arith in subst OwnFrames same second_own
    | inr e3 ↦ others_own n e1 e3
  ]
]

named-IsGreeting : IsGreeting toy_rt toy_protobuf named_client
unfolding name_of_args is_utf8 toy_protobuf
named-IsGreeting = record {
  utf8 = refl;
  small = omega arith;
  request_fits = omega arith;
  reply_fits = omega arith;
  cut = refl;
}

default-IsGreeting : IsGreeting toy_rt toy_protobuf default_client
unfolding name_of_args is_utf8 toy_protobuf
default-IsGreeting = record {
  utf8 = refl;
  small = omega arith;
  request_fits = omega arith;
  reply_fits = omega arith;
  cut = refl;
}

clients-AreGreetings : (n : ℕ) → AreGreetings toy_rt toy_protobuf (clients n)
clients-AreGreetings n = elim (Bool-cases (1 == n)) [
  | inl e ↦ rw e named-IsGreeting
  | inr e1 ↦ elim (Bool-cases (3 == n)) [
    | inl e ↦ rw (e1, e) default-IsGreeting
    | inr e3 ↦ rw (e1, e3) tt
  ]
]

greetings_served_example :
    (conn' : GrpcServerConnection multiplexing) × (before after : List (Frame toy_http)) × (run
        multiplexing 7 1
        (greeter_connection toy_rt wire_in)
      ≡ returns (ok conn'))
    × (conn'.conn.sent
        ≡ before
          ++ (response_frames multiplexing (3, wire (10 ∷ 11 ∷ ascii "Hello world")) ++ after))
    × (response_value big (client_method toy_rt) (wire (10 ∷ 11 ∷ ascii "Hello world"))
        ≡ returns (saying toy_rt toy_protobuf (ascii "Hello world")))
unfolding toy_protobuf name_of_args dispatches
greetings_served_example =
    greetings_served toy_rt toy_protobuf toy-HasHeaders dispatches toy-HasStates big 1 3 wire_in
      first_frame later_frames clients default_client (omega arith) refl all_own
      clients-AreGreetings refl
