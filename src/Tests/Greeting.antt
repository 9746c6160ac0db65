-- ===== src/Tests/Greeting.antt =====
-- The greeter example at a concrete name.
use grpc_rust.Prelude.{
  ℕ, ◌≡◌, Option, bytes_eq, ◌&&◌, refl, Bool, true, false, some, none, List, [], ◌∷◌, Bytes, ascii,
  arith, ◌==◌, if◌then◌else◌,
}
use grpc_rust.Outcome.{returns}
use grpc_rust.Grpc.RoundTrip.{wire}
use grpc_rust.Grpc.Word.{little, big}
use grpc_rust.Marshall.{Carries, marshaller_protobuf}
use grpc_rust.Marshall.Utf8.{is_utf8}
use grpc_rust.Solicit.{ok}
use grpc_rust.Server.Stream.{GrpcStream}
use grpc_rust.Client.Call.{ClientHttp, finished, new_stream}
use grpc_rust.EndToEnd.FreshStream.{served_request}
use grpc_rust.Tests.Requests.{toy-HasHeaders}
use grpc_rust.Client.Unary.{Goes, Answers}
use grpc_rust.Helloworld.Fields.{IsText}
use grpc_rust.Helloworld.Request
use grpc_rust.Helloworld.Request.RoundTrip.{named, named-Carries}
use grpc_rust.Helloworld.Reply.RoundTrip.{saying}
use grpc_rust.Helloworld.Request.Accessors as RequestAccessors
use grpc_rust.Helloworld.Reply.{HelloReply}
use grpc_rust.Helloworld.Reply.Accessors as ReplyAccessors
use grpc_rust.Helloworld.Accessors.{IsField, Access, sets, shows_mut, takes, access_all, expected}
use grpc_rust.Helloworld.Accesses.{accesses_refine}
use grpc_rust.Helloworld.Greeter.{service_definition}
use grpc_rust.Helloworld.Programs.{greeter_impl, client_main, name_of_args, greeted}
use grpc_rust.Helloworld.Served.{say_hello_path}
use grpc_rust.Helloworld.Greet.{local, greet}
use grpc_rust.Tests.Fixtures.{toy_http}
use grpc_rust.Tests.Protobufs.{toy_rt, toy_protobuf}

abbrev zed : Bytes
zed = ascii "Zed"

zed_utf8 : is_utf8 zed ≡ true
unfolding is_utf8
zed_utf8 = refl

zed-IsText : IsText zed
zed-IsText = (zed_utf8, omega arith)

named-Carries_example :
    Carries
      (marshaller_protobuf (Request.message toy_rt))
      (named toy_rt toy_protobuf zed)
      (toy_protobuf.field_bytes 1 zed)
named-Carries_example =
    named-Carries toy_rt toy_protobuf zed zed-IsText (unfold toy_protobuf in omega arith)

abbrev sent_bytes : Bytes
sent_bytes = 10 ∷ 3 ∷ zed

abbrev said_bytes : Bytes
said_bytes = 10 ∷ 9 ∷ ascii "Hello Zed"

-- The connection has sent its request; the response is there after one frame.
abbrev greeted_http : ClientHttp toy_http
greeted_http = record {
  Conn = Bool;
  Stream = Bool × Bytes;
  new_stream = (false, []);
  set_full_data = λ b s. (s.0, b);
  close_local = λ s. (true, s.1);
  is_closed = λ s. s.0;
  stream_headers = λ s. some [];
  stream_body = λ s. s.1;
  scheme = λ c. ascii "http";
  start_request = λ c headers s. ok (1, false);
  get_stream = λ c id. if id == 1 then some (c, wire said_bytes) else none;
  set_stream_id = λ c id. c;
  send_next_data = λ c. ok (false, c);
  read_frame = λ c. ok true;
}

abbrev connect_local : Bytes → ℕ → Option Bool
connect_local host port =
    if bytes_eq host (ascii "localhost") && (port == 50051) then some false else none

zed-Goes : Goes greeted_http (local false) say_hello_path (wire sent_bytes) 0 1 false
zed-Goes = record {
  started_conn = false;
  known = (false, wire said_bytes);
  started = refl;
  is_known = refl;
  sent = refl;
}

zed-Answers : Answers greeted_http 1 (wire said_bytes) 1 false true
unfolding finished
zed-Answers = record {
  known = (false, wire said_bytes);
  stream = (true, wire said_bytes);
  headers = [];
  is_known = refl;
  arrives = (true, refl, refl, refl);
  found = refl;
  closed = refl;
  headers_there = refl;
  body_there = refl;
}

abbrev args : List Bytes
args = ascii "greeter_client" ∷ zed ∷ []

greet_example :
    (stream' : GrpcStream toy_http) × (served_request big
        (service_definition toy_rt (greeter_impl toy_rt))
        1
        (new_stream greeted_http
          (local false)
          (ascii "POST")
          say_hello_path
          []
          (some (wire sent_bytes))).0
        ((0 ∷ 0 ∷ []) ∷ (0 ∷ 0 ∷ 5 ∷ sent_bytes) ∷ [])
      ≡ returns stream')
    × (stream'.resp_buf ≡ wire said_bytes)
    × (client_main toy_rt greeted_http connect_local 2 little args
        ≡ returns
            (saying toy_rt toy_protobuf (ascii "Hello Zed"), record { grpc_client = local true }))
unfolding name_of_args greeted toy_protobuf bytes_eq
greet_example =
    greet toy_rt toy_protobuf little big args toy-HasHeaders greeted_http connect_local 2 0 1 1 1
      false false true (0 ∷ 0 ∷ []) ((0 ∷ 0 ∷ 5 ∷ sent_bytes) ∷ []) zed_utf8 (omega arith)
      (omega arith) (omega arith) refl zed-Goes refl zed-Answers (omega arith) (omega arith)

toy-IsField : IsField toy_rt
toy-IsField = record {
  is_some_none = λ f e. rw e refl;
  is_some_some = λ f v e. rw e refl;
  set = λ v. refl;
  cleared = λ f. refl;
  defaulted = λ f e. rw e refl;
  taken = λ f. refl;
  emptied = λ f. refl;
}

abbrev some_accesses : List Access
some_accesses = shows_mut ∷ sets zed ∷ shows_mut ∷ takes ∷ takes ∷ []

abbrev zed_reply : HelloReply toy_rt
zed_reply = record { message = some zed; unknown_fields = tt; cached_size = 0 }

accesses_refine_example :
    (access_all (RequestAccessors.accessors toy_rt) some_accesses (Request.new toy_rt)
      ≡ returns (expected some_accesses none))
    × (access_all (ReplyAccessors.accessors toy_rt) some_accesses zed_reply
        ≡ returns (expected some_accesses (some zed)))
unfolding Request.new
accesses_refine_example =
    accesses_refine toy_rt toy-IsField some_accesses (Request.new toy_rt) zed_reply
