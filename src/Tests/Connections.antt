-- ===== src/Tests/Connections.antt =====
-- A connection that keeps what it sends in a list, with one stream that has a response.
use grpc_rust.Prelude.{
  false, ℕ, ◌≡◌, refl, some, List, [], ◌∷◌, ◌++◌, ascii, arith, bytes_eq, length, ◌==◌,
  if◌then◌else◌,
}
use grpc_rust.Outcome.{returns, panics, bad_preface}
use grpc_rust.Solicit.{ok, failed}
use grpc_rust.Grpc.RoundTrip.{wire}
use grpc_rust.Server.Stream.{GrpcStream}
use grpc_rust.Server.Connection.{
  nothing, ServerHttp, GrpcServerConnection, handle_requests, handle_next, run, connect, preface,
  response_headers, prepare_responses, flush_streams,
}
use grpc_rust.Server.Responses.{Frame, headers_frame, data_frame, Delivers, all_frames}
use mathlib.Core.Logic.{◌↔◌}
use grpc_rust.Server.Preface.{fresh, connect_accepts}
use grpc_rust.Server.Ends.{data_fails, send_fails, Ends, run-Ends}
use grpc_rust.Tests.Fixtures.{toy_http, echo_service, echo_stream}

abbrev Sessions : Type 0
Sessions = List (ℕ × GrpcStream toy_http)

abbrev pub recording : ServerHttp toy_http
recording = record {
  Conn = List (Frame toy_http);
  Sessions = Sessions;
  iter = λ s. s;
  get_closed = λ s. ([], s);
  send_headers = λ c h id end. ok (c ++ headers_frame h id end ∷ []);
  send_data = λ c b id end. ok (c ++ data_frame b id end ∷ []);
  send_next_data = λ c s. ok (nothing, c, s);
  read_frame = λ service c s. returns (ok (c, s));
  new_conn = λ stream. some [];
  new_sessions = [];
}

abbrev recording_delivers : Delivers recording
recording_delivers = record {
  log = λ c. c;
  push = λ c f. c ++ f ∷ [];
  log_push = λ c f. refl;
  headers_sent = λ c h id end. refl;
  data_sent = λ c b id end. refl;
}

abbrev answered_sessions : Sessions
answered_sessions =
    (1, record echo_stream { resp_buf = wire (ascii "pong") }) ∷ (3, echo_stream) ∷ []

abbrev connection : GrpcServerConnection recording
connection = record { conn = []; factory = echo_service; state = answered_sessions }

-- Only the stream with a response is answered.
due_once : handle_requests recording connection ≡ (1, wire (ascii "pong")) ∷ []
unfolding handle_requests
due_once = refl

connect_refused :
    connect recording (ascii "GET / HTTP/1.1 and much more") echo_service ≡ panics bad_preface
unfolding connect bytes_eq
connect_refused = refl

connect_accepted :
    connect recording (preface ++ 1 ∷ 2 ∷ []) echo_service
    ≡ returns (record { conn = []; factory = echo_service; state = [] }, 1 ∷ 2 ∷ [])
unfolding connect bytes_eq
connect_accepted = refl

connect_accepts_example :
    (connect recording (preface ++ 0 ∷ 4 ∷ []) echo_service
      ≡ returns (fresh recording echo_service [], 0 ∷ 4 ∷ []))
    ↔ ((preface ++ 0 ∷ 4 ∷ [] ≡ preface ++ 0 ∷ 4 ∷ [])
        × (recording.new_conn (preface ++ 0 ∷ 4 ∷ []) ≡ some []))
connect_accepts_example =
    connect_accepts recording echo_service [] (preface ++ 0 ∷ 4 ∷ []) (0 ∷ 4 ∷ [])

-- As `recording`, but the fifth frame, the data of the second round, does not go out.
abbrev breaking : ServerHttp toy_http
breaking = record recording {
  send_data = λ c b id end. if length c == 4 then failed 9 else ok (c ++ data_frame b id end ∷ []);
}

abbrev broken : List (Frame toy_http) → GrpcServerConnection breaking
broken c = record { conn = c; factory = echo_service; state = answered_sessions }

abbrev one_round : List (Frame toy_http)
one_round = all_frames breaking ((1, wire (ascii "pong")) ∷ [])

good_round : run breaking 1 1 (broken []) ≡ returns (ok (broken one_round))
unfolding run handle_next prepare_responses handle_requests flush_streams
good_round = refl

second-Ends : Ends breaking 1 (broken one_round) (returns (failed 9))
unfolding handle_requests
second-Ends = send_fails 9 one_round answered_sessions refl (
    data_fails 1 (wire (ascii "pong"))
      (one_round ++ headers_frame (response_headers breaking) 1 false ∷ []) refl refl)

run-Ends_example : run breaking 7 1 (broken []) ≡ returns (failed 9)
run-Ends_example =
    run-Ends breaking 1 7 1 (broken []) (broken one_round) (returns (failed 9)) (omega arith)
      good_round second-Ends
