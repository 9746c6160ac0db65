-- ===== src/Tests/Clients.antt =====
-- Clients at concrete inputs.
use grpc_rust.Prelude.{
  ℕ, suc, ◌≡◌, refl, Bool, true, false, none, some, [], ◌∷◌, Bytes, ascii, arith, ◌==◌,
  if◌then◌else◌, ◌-◌,
}
use grpc_rust.Outcome.{returns, panics, unwrap_err}
use grpc_rust.Grpc.RoundTrip.{wire}
use grpc_rust.Solicit.{ok, failed}
use grpc_rust.Client.Call.{
  ClientHttp, GrpcClient, finished, get_response, new_stream, request_body, request, call,
}
use grpc_rust.Grpc.Word.{little}
use grpc_rust.Marshall.{marshaller_bytes}
use grpc_rust.Client.Unary.{Goes, Answers}
use grpc_rust.Client.Breaks.{read_fails, call-Breaks}
use grpc_rust.Client.Wait.{Pending}
use grpc_rust.Client.Sound.{Called, call-Called}
use mathlib.Core.Logic.{◌↔◌}
use grpc_rust.Tests.Fixtures.{toy_http, say_hello, echo_descriptor}

-- The connection counts the frames that it has read, and fails when it has read `limit`.
abbrev counting : ℕ → ClientHttp toy_http
counting limit = record {
  Conn = ℕ;
  Stream = Bool × Bytes;
  new_stream = (false, []);
  set_full_data = λ b s. (s.0, b);
  close_local = λ s. (true, s.1);
  is_closed = λ s. s.0;
  stream_headers = λ s. some [];
  stream_body = λ s. s.1;
  scheme = λ c. ascii "http";
  start_request = λ c headers s. ok (1, c);
  get_stream = λ c id. if id == 1 then some (c == 2, wire (ascii "pong")) else none;
  set_stream_id = λ c id. c;
  send_next_data = λ c. ok (false, c);
  read_frame = λ c. if c == limit then failed 9 else ok (suc c);
}

abbrev client : (limit : ℕ) → ℕ → GrpcClient (counting limit)
client limit c = record { host = ascii "localhost"; conn = c }

-- The response is complete after two frames; then no further one is read.
two_reads :
    get_response (counting 5) 3 (client 5 0) 1
    ≡ returns (ok (record { stream_id = 1; headers = []; body = wire (ascii "pong") }, client 5 2))
unfolding get_response
two_reads = refl

lost_read : get_response (counting 1) 3 (client 1 0) 1 ≡ returns (failed 9)
unfolding get_response
lost_read = refl

headers_in_order :
    (new_stream (counting 5) (client 5 0) (ascii "POST") say_hello [] (some (ascii "body"))).0
    ≡ (ascii ":method", ascii "POST")
      ∷ (ascii ":path", say_hello)
      ∷ (ascii ":authority", ascii "localhost")
      ∷ (ascii ":scheme", ascii "http")
      ∷ []
unfolding new_stream
headers_in_order = refl

-- A connection with a peer that echoes the body: two frames of data to send, then one to read.
pub record Echo : Type 0 where
  unsent : ℕ
  complete : Bool
  body : Bytes

abbrev pub echoing : ClientHttp toy_http
echoing = record {
  Conn = Echo;
  Stream = Bool × Bytes;
  new_stream = (false, []);
  set_full_data = λ b s. (s.0, b);
  close_local = λ s. (true, s.1);
  is_closed = λ s. s.0;
  stream_headers = λ s. some [];
  stream_body = λ s. s.1;
  scheme = λ c. ascii "http";
  start_request = λ c headers s. ok (1, record { unsent = 2; complete = false; body = s.1 });
  get_stream = λ c id. if id == 1 then some (c.complete, c.body) else none;
  set_stream_id = λ c id. c;
  send_next_data =
      λ c. if c.unsent == 0 then ok (false, c) else ok (true, record c { unsent = c.unsent - 1 });
  read_frame = λ c. ok (record c { complete = true });
}

abbrev echo_conn : ℕ → Bool → Bytes → Echo
echo_conn unsent complete body = record { unsent = unsent; complete = complete; body = body }

abbrev pub caller : Echo → GrpcClient echoing
caller c = record { host = ascii "localhost"; conn = c }

abbrev sent_conn : Echo
sent_conn = echo_conn 0 false (wire (ascii "ping"))

abbrev pub done_conn : Echo
done_conn = echo_conn 0 true (wire (ascii "ping"))

ping-Goes :
    Goes echoing (caller (echo_conn 0 true [])) say_hello (wire (ascii "ping")) 2 1 sent_conn
ping-Goes = record {
  started_conn = echo_conn 2 false (wire (ascii "ping"));
  known = (false, wire (ascii "ping"));
  started = refl;
  is_known = refl;
  sent = (
    echo_conn 1 false (wire (ascii "ping")),
    refl,
    (echo_conn 0 false (wire (ascii "ping")), refl, refl),
  );
}

ping-Answers : Answers echoing 1 (wire (ascii "ping")) 1 sent_conn done_conn
unfolding finished
ping-Answers = record {
  known = (false, wire (ascii "ping"));
  stream = (true, wire (ascii "ping"));
  headers = [];
  is_known = refl;
  arrives = (done_conn, refl, refl, refl);
  found = refl;
  closed = refl;
  headers_there = refl;
  body_there = refl;
}

call-Called_example :
    ((fuel : ℕ) × (call echoing fuel little
          (caller (echo_conn 0 true []))
          (ascii "ping")
          echo_descriptor
        ≡ returns (ascii "ping", caller done_conn)))
    ↔ Called echoing little echo_descriptor
        (ascii "ping")
        (caller (echo_conn 0 true []))
        (ascii "ping")
        (caller done_conn)
call-Called_example =
    call-Called echoing little echo_descriptor (ascii "ping") (caller (echo_conn 0 true []))
      (ascii "ping") (caller done_conn)

-- As `echoing`, but the connection is lost before the response.
abbrev losing : ClientHttp toy_http
losing = record {
  Conn = Echo;
  Stream = Bool × Bytes;
  new_stream = (false, []);
  set_full_data = λ b s. (s.0, b);
  close_local = λ s. (true, s.1);
  is_closed = λ s. s.0;
  stream_headers = λ s. some [];
  stream_body = λ s. s.1;
  scheme = λ c. ascii "http";
  start_request = λ c headers s. ok (1, echo_conn 1 false s.1);
  get_stream = λ c id. if id == 1 then some (c.complete, c.body) else none;
  set_stream_id = λ c id. c;
  send_next_data =
      λ c. if c.unsent == 0 then ok (false, c) else ok (true, record c { unsent = c.unsent - 1 });
  read_frame = λ c. failed 9;
}

abbrev loser : GrpcClient losing
loser = record { host = ascii "localhost"; conn = echo_conn 0 true [] }

lost-Goes : Goes losing loser say_hello (wire (ascii "ping")) 1 1 sent_conn
lost-Goes = record {
  started_conn = echo_conn 1 false (wire (ascii "ping"));
  known = (false, wire (ascii "ping"));
  started = refl;
  is_known = refl;
  sent = (sent_conn, refl, refl);
}

lost-Pending : Pending losing 1 sent_conn
unfolding finished
lost-Pending = refl

call-Breaks_example : call losing 2 little loser (ascii "ping") echo_descriptor ≡ panics unwrap_err
call-Breaks_example =
    call-Breaks losing little echo_descriptor (ascii "ping") (ascii "ping")
      (unfold marshaller_bytes in refl) 2 1 loser 9
      (read_fails 1 0 1 sent_conn sent_conn (false, wire (ascii "ping")) lost-Goes refl refl
        lost-Pending refl)
      (omega arith)

-- The connection is lost as soon as the request is started.
lost_start :
    call
      (record losing { start_request = λ c headers s. failed 9 })
      2
      little
      (record { host = ascii "localhost"; conn = echo_conn 0 true [] })
      (ascii "ping")
      echo_descriptor
    ≡ panics unwrap_err
unfolding call request_body request marshaller_bytes
lost_start = refl
