-- ===== src/Tests/Sessions.antt =====
-- A session that hands DATA frames to its streams.
use grpc_rust.Prelude.{
  ℕ, ◌≡◌, ◌≢◌, refl, ap, ◌∙◌, Option, none, some, List, [], ◌∷◌, ◌++◌, Bytes, All, ascii, arith,
  ◌==◌, filter, bytes_eq, if◌then◌else◌,
}
use grpc_rust.Outcome.{returns, ◌>>=◌}
use grpc_rust.Grpc.{parse_frame}
use grpc_rust.Grpc.Word.{little}
use grpc_rust.Grpc.RoundTrip.{wire}
use grpc_rust.Method.{handle_method, find_method, server_method, method_handler_echo}
use grpc_rust.Marshall.{marshaller_bytes}
use grpc_rust.Solicit.{ok, failed, Io}
use grpc_rust.Server.Stream.{GrpcStream, new_data_chunk}
use grpc_rust.Server.Replies.{replies, answered}
use grpc_rust.Server.Connection.{nothing, ServerHttp, GrpcServerConnection, run, reap_streams}
use grpc_rust.Server.Responses.{Frame, headers_frame, data_frame, Delivers, response_frames}
use grpc_rust.Server.Serving.{Receives, Hosts}
use grpc_rust.Server.Delivery.{run_serves}
use grpc_rust.Tests.Fixtures.{toy_http, echo_service, echo_stream, say_hello}

record Wire : Type 0 where
  sent : List (Frame toy_http)
  waiting : List (ℕ × Bytes)

abbrev Sessions : Type 0
Sessions = List (ℕ × GrpcStream toy_http)

put : Sessions → ℕ → GrpcStream toy_http → Sessions
put [] id s' = []
put ((n, s) ∷ rest) id s' = if n == id then (n, s') ∷ rest else (n, s) ∷ put rest id s'

find : Sessions → ℕ → Option (GrpcStream toy_http)
find [] id = none
find ((n, s) ∷ rest) id = if n == id then some s else find rest id

abbrev push : Wire → Frame toy_http → Wire
push c f = record c { sent = c.sent ++ f ∷ [] }

tail_of : List (ℕ × Bytes) → List (ℕ × Bytes)
tail_of [] = []
tail_of (f ∷ rest) = rest

abbrev received : Wire → Wire
received c = record c { waiting = tail_of c.waiting }

abbrev dispatch :
    Wire → Sessions → ℕ → Bytes → Option (GrpcStream toy_http) → Io ℕ (Wire × Sessions)
dispatch c state id chunk none = returns (ok (received c, state))
dispatch c state id chunk (some s) =
    new_data_chunk little chunk s >>= λ s'. returns (ok (received c, put state id s'))

abbrev read : Wire → Sessions → List (ℕ × Bytes) → Io ℕ (Wire × Sessions)
read c state [] = returns (failed 9)
read c state ((id, chunk) ∷ rest) = dispatch c state id chunk (find state id)

abbrev handing : ServerHttp toy_http
handing = record {
  Conn = Wire;
  Sessions = Sessions;
  iter = λ s. s;
  get_closed = λ s. ([], s);
  send_headers = λ c h id end. ok (push c (headers_frame h id end));
  send_data = λ c b id end. ok (push c (data_frame b id end));
  send_next_data = λ c s. ok (nothing, c, s);
  read_frame = λ service c s. read c s c.waiting;
  new_conn = λ stream. some (record { sent = []; waiting = [] });
  new_sessions = [];
}

abbrev delivers : Delivers handing
delivers = record {
  log = λ c. c.sent;
  push = push;
  log_push = λ c f. refl;
  headers_sent = λ c h id end. refl;
  data_sent = λ c b id end. refl;
}

put_at :
    (front back : Sessions) (id : ℕ) (s s' : GrpcStream toy_http)
    → All (λ e. e.0 ≢ id) front
    → put (front ++ (id, s) ∷ back) id s' ≡ front ++ (id, s') ∷ back
unfolding put
put_at [] back id s s' h = ground arith
put_at ((n, t) ∷ front) back id s s' (h, hs) = ground (arith, put_at front back id s s' hs)

find_at :
    (front back : Sessions) (id : ℕ) (s : GrpcStream toy_http)
    → All (λ e. e.0 ≢ id) front
    → find (front ++ (id, s) ∷ back) id ≡ some s
unfolding find
find_at [] back id s h = ground arith
find_at ((n, t) ∷ front) back id s (h, hs) = ground (arith, find_at front back id s hs)

receives : Receives delivers little
unfolding reap_streams
receives = record {
  incoming = λ c. c.waiting;
  received = received;
  put = put;
  incoming_push = λ c f. refl;
  log_received = λ c. refl;
  incoming_received = λ c frame rest e. unfold tail_of in rw e refl;
  iter_put = λ state id front back s s' h e. rw e (put_at front back id s s' h);
  read_data = λ service c state id chunk rest front back s w h e.
      ap (read c state) w ∙ rw e (rw (find_at front back id s h) refl);
  quiet = λ c state o. refl;
  kept = λ state o. refl;
}

-- The body of two messages and the first byte of a third, in two DATA frames.
abbrev first_chunk : Bytes
first_chunk = 0 ∷ 0 ∷ 0 ∷ 0 ∷ []

abbrev second_chunk : Bytes
second_chunk = 1 ∷ ascii "a" ++ (wire (ascii "b") ++ 0 ∷ [])

abbrev echoed : Bytes
echoed = wire (ascii "a") ++ (wire (ascii "b") ++ [])

abbrev others : Sessions
others = (1, echo_stream) ∷ []

others_first : All (λ (e : ℕ × GrpcStream toy_http). e.0 ≢ 3) others
others_first = (λ i. omega arith, tt)

abbrev waiting_conn : GrpcServerConnection handing
waiting_conn = record {
  conn = record { sent = []; waiting = (3, first_chunk) ∷ (3, second_chunk) ∷ [] };
  factory = echo_service;
  state = others ++ (3, echo_stream) ∷ [];
}

waiting_conn-Hosts :
    Hosts receives echo_service 3 others [] others_first waiting_conn echo_stream
      ((3, first_chunk) ∷ (3, second_chunk) ∷ [])
unfolding receives
waiting_conn-Hosts = record { serves = refl; waiting = refl; hosted = refl }

echo_replies : replies echo_service say_hello (ascii "a" ∷ ascii "b" ∷ []) ≡ returns echoed
unfolding replies handle_method find_method filter bytes_eq server_method method_handler_echo
    marshaller_bytes
echo_replies = refl

run_serves_example :
    (self' : GrpcServerConnection handing) × (before after : List (Frame toy_http)) × (run handing 2
        1 waiting_conn
      ≡ returns (ok self'))
    × Hosts receives echo_service 3 others [] others_first self'
        (answered echo_stream (0 ∷ []) echoed)
        []
    × (self'.conn.sent ≡ before ++ (response_frames handing (3, echoed) ++ after))
run_serves_example =
    run_serves receives echo_service 3 others [] others_first 1 waiting_conn first_chunk
      (second_chunk ∷ []) [] echo_stream (ascii "a") (ascii "b" ∷ []) (0 ∷ []) echoed (omega arith)
      waiting_conn-Hosts ((refl, refl), ((refl, refl), tt)) refl refl (omega arith)
      (unfold parse_frame in refl) echo_replies
