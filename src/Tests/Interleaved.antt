-- ===== src/Tests/Interleaved.antt =====
-- Two calls at once, with their frames interleaved, on the connection of Tests.Multiplexing.
use mathlib.Core.Logic.{◌↔◌}
use grpc_rust.Prelude.{
  filter-false, ℕ, ◌≡◌, refl, ap, All, ◌∙◌, subst, true, false, Option, none, some, List, [], ◌∷◌,
  ◌++◌, Bytes, ascii, arith, ◌==◌, filter, bytes_eq, Bool-cases, inl, inr,
}
use grpc_rust.Outcome.{returns}
use grpc_rust.Grpc.{parse_frame, frame_len}
use grpc_rust.Grpc.Word.{little, big, to_be, load_u32}
use grpc_rust.Grpc.RoundTrip.{wire}
use grpc_rust.Marshall.{marshaller_bytes, marshaller_bytes-Carries, from_utf8}
use grpc_rust.Marshall.Utf8.{is_utf8}
use grpc_rust.Method.{method_handler_echo, handle_method, find_method, server_method}
use grpc_rust.Solicit.{ok}
use grpc_rust.Server.Stream.{
  GrpcStream, create, with_id, set_headers, read_path, new_data_chunk, process_buf, process_loop,
  set_state,
}
use grpc_rust.Server.Connection.{GrpcServerConnection, run}
use grpc_rust.Server.Responses.{Frame, response_frames}
use grpc_rust.Server.Session.{Incoming, headers_in, data_in, other_in, concerns, own, handed, life}
use grpc_rust.Server.Session.Rounds.{Waits, new_sessions-IsFine}
use grpc_rust.Server.Session.Alone.{Returns, Ran, run_alone, run_returns}
use grpc_rust.Client.Call.{new_stream, response_value}
use grpc_rust.EndToEnd.{request_body-wire}
use grpc_rust.EndToEnd.RequestFrames.{HasStates}
use grpc_rust.EndToEnd.Connection.{call_served}
use grpc_rust.Tests.Fixtures.{toy_http, say_hello, echo_descriptor, echo_service}
use grpc_rust.Tests.Clients.{echoing, caller, done_conn}
use grpc_rust.Tests.Requests.{toy-HasHeaders, say_hello_utf8}
use grpc_rust.Tests.Multiplexing.{multiplexing, find, dispatches, toy_transitions}

abbrev hello_headers : List (Bytes × Bytes)
hello_headers =
    (new_stream echoing (caller done_conn) (ascii "POST") say_hello []
      (some (wire (ascii "ping")))).0

abbrev first_frame : Incoming toy_http
first_frame = headers_in 1 hello_headers false

abbrev later_frames : List (Incoming toy_http)
later_frames =
    headers_in 3 hello_headers false
    ∷ data_in 1 (0 ∷ 0 ∷ []) false
    ∷ other_in
    ∷ data_in 3 (0 ∷ 0 ∷ []) false
    ∷ data_in 1 (0 ∷ 0 ∷ 1 ∷ ascii "a") true
    ∷ data_in 3 (0 ∷ 0 ∷ 4 ∷ ascii "ping") true
    ∷ []

abbrev busy : GrpcServerConnection multiplexing
busy = record {
  conn = record { sent = []; waiting = first_frame ∷ later_frames };
  factory = echo_service;
  state = [];
}

busy-Waits : Waits dispatches echo_service busy (first_frame ∷ later_frames)
unfolding dispatches
busy-Waits = record {
  serves = refl;
  waiting = refl;
  fine = new_sessions-IsFine dispatches echo_service;
}

-- Each of the two streams answers, and the others get nothing.
first_answers :
    (o : Option (GrpcStream toy_http)) × (life toy_transitions little echo_service 1
        (own 1 (first_frame ∷ later_frames))
        none
      ≡ returns o)
unfolding life handed filter set_headers read_path from_utf8 is_utf8 bytes_eq create with_id
    new_data_chunk process_buf process_loop parse_frame handle_method find_method server_method
    method_handler_echo marshaller_bytes set_state new_stream frame_len to_be load_u32
first_answers = (_, refl)

second_answers :
    (o : Option (GrpcStream toy_http)) × (life toy_transitions little echo_service 3
        (own 3 (first_frame ∷ later_frames))
        none
      ≡ returns o)
unfolding life handed filter set_headers read_path from_utf8 is_utf8 bytes_eq create with_id
    new_data_chunk process_buf process_loop parse_frame handle_method find_method server_method
    method_handler_echo marshaller_bytes set_state new_stream frame_len to_be load_u32
second_answers = (_, refl)

abbrev Answers : ℕ → Type 0
Answers id =
    (o : Option (GrpcStream toy_http)) × (life toy_transitions little echo_service id
        (own id (first_frame ∷ later_frames)) none
      ≡ returns o)

pub own_none :
    (id : ℕ) (frames : List (Incoming toy_http))
    → All (λ f. concerns id f ≡ false) frames
    → own id frames ≡ []
unfolding filter
own_none id [] h = refl
own_none id (f ∷ frames) (e, h) = filter-false (concerns id) f frames e ∙ own_none id frames h

others_silent : (id : ℕ) → 1 == id ≡ false → 3 == id ≡ false → Answers id
unfolding life
others_silent id e1 e3 = (
  none,
  ap (λ fs. life toy_transitions little echo_service id fs none)
      (own_none id (first_frame ∷ later_frames) (e1, (e3, (e1, (refl, (e3, (e1, (e3, tt)))))))),
)

all_answer : (id : ℕ) → Answers id
all_answer id = elim (Bool-cases (1 == id)) [
  | inl e ↦ let same : 1 ≡ id = ground arith in subst Answers same first_answers
  | inr e1 ↦ elim (Bool-cases (3 == id)) [
    | inl e ↦ let same : 3 ≡ id = ground arith in subst Answers same second_answers
    | inr e3 ↦ others_silent id e1 e3
  ]
]

busy-Returns : Returns dispatches echo_service busy (first_frame ∷ later_frames)
unfolding dispatches find
busy-Returns id = all_answer id

run_alone_example : Ran dispatches echo_service 7 1 busy (first_frame ∷ later_frames)
run_alone_example =
    run_alone dispatches echo_service 1 busy first_frame later_frames (omega arith) busy-Waits
      busy-Returns

run_returns_example :
    ((self' : GrpcServerConnection multiplexing) × (run multiplexing 7 1 busy ≡ returns (ok self')))
    ↔ Returns dispatches echo_service busy (first_frame ∷ later_frames)
run_returns_example =
    run_returns dispatches echo_service 1 busy (first_frame ∷ later_frames) (omega arith) busy-Waits

pub toy-HasStates : HasStates toy_transitions
toy-HasStates = record { open_open = refl; half_open = refl }

call_served_example :
    (conn' : GrpcServerConnection multiplexing) × (before after : List (Frame toy_http))
    × (answer : Bytes) × (run multiplexing 7 1 busy ≡ returns (ok conn'))
    × (conn'.conn.sent ≡ before ++ (response_frames multiplexing (3, answer) ++ after))
    × (response_value big echo_descriptor answer ≡ returns (ascii "ping"))
unfolding dispatches filter new_stream find
call_served_example =
    call_served toy-HasHeaders echoing big dispatches toy-HasStates echo_descriptor
      method_handler_echo [] [] tt 1 3 busy first_frame later_frames (caller done_conn)
      (ascii "ping") (ascii "ping") (ascii "ping") (ascii "ping") (wire (ascii "ping")) (0 ∷ 0 ∷ [])
      ((0 ∷ 0 ∷ 4 ∷ ascii "ping") ∷ []) (omega arith) busy-Waits (λ n e. busy-Returns n) refl refl
      say_hello_utf8 (marshaller_bytes-Carries (ascii "ping")) (unfold method_handler_echo in refl)
      (marshaller_bytes-Carries (ascii "ping")) (omega arith) (omega arith)
      (request_body-wire echo_descriptor big (ascii "ping") (ascii "ping")
        (marshaller_bytes-Carries (ascii "ping")))
      refl
