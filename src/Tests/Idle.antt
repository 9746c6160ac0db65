-- ===== src/Tests/Idle.antt =====
-- Frames that concern no stream, on the connection of Tests.Multiplexing.
use grpc_rust.Prelude.{ℕ, suc, ◌≡◌, refl, List, [], ◌∷◌, ◌++◌, arith, ascii}
use grpc_rust.Outcome.{returns}
use grpc_rust.Grpc.RoundTrip.{wire}
use grpc_rust.Solicit.{ok}
use grpc_rust.Server.Connection.{reap_streams, run}
use grpc_rust.Server.Responses.{response_frames}
use grpc_rust.Server.Session.{Incoming, headers_in, data_in, reset_in, other_in}
use grpc_rust.Server.Resend.{IsIdle, run_resends}
use grpc_rust.Tests.Fixtures.{toy_http, echo_service, echo_stream}
use grpc_rust.Tests.Multiplexing.{
  Wire, Sessions, multiplexing, delivers, received, read, reap, remove, tail_of,
}

-- How many frames come before the first that concerns a stream.
unfoldable leading : List (Incoming toy_http) → ℕ
leading (other_in ∷ rest) = suc (leading rest)
leading (headers_in n hs end ∷ rest) = 0
leading (data_in n chunk end ∷ rest) = 0
leading (reset_in n ∷ rest) = 0
leading [] = 0

abbrev pending : Sessions
pending = (1, record echo_stream { resp_buf = wire (ascii "pong") }) ∷ (3, echo_stream) ∷ []

leading-tail_of :
    (frames : List (Incoming toy_http)) (n : ℕ)
    → leading frames ≡ suc n
    → leading (tail_of frames) ≡ n
unfolding leading tail_of
leading-tail_of (other_in ∷ rest) n h = omega arith
leading-tail_of (headers_in k hs end ∷ rest) n h = cc
leading-tail_of (data_in k chunk end ∷ rest) n h = cc
leading-tail_of (reset_in k ∷ rest) n h = cc
leading-tail_of [] n h = cc

read_leading :
    (frames : List (Incoming toy_http)) (n : ℕ) (c : Wire)
    → leading frames ≡ suc n
    → read frames echo_service c pending ≡ returns (ok (received c, pending))
unfolding leading read
read_leading (other_in ∷ rest) n c h = refl
read_leading (headers_in k hs end ∷ rest) n c h = cc
read_leading (data_in k chunk end ∷ rest) n c h = cc
read_leading (reset_in k ∷ rest) n c h = cc
read_leading [] n c h = cc

pending-IsIdle : IsIdle multiplexing delivers echo_service pending
unfolding reap_streams reap remove
pending-IsIdle = record {
  idle_frames = λ c. leading c.waiting;
  received = received;
  idle_push = λ c f. refl;
  idle_received = λ c n h. leading-tail_of c.waiting n h;
  log_received = λ c. refl;
  arrives = λ c n h. read_leading c.waiting n c h;
  quiet = λ c. refl;
  kept = refl;
}

abbrev pinged : Wire
pinged = record { sent = []; waiting = other_in ∷ other_in ∷ reset_in 1 ∷ [] }

-- Two frames of that kind send the one response twice.
run_resends_example :
    (c' : Wire) × (run multiplexing 2 1
        (record { conn = pinged; factory = echo_service; state = pending })
      ≡ returns (ok (record { conn = c'; factory = echo_service; state = pending })))
    × (c'.sent
        ≡ []
          ++ (response_frames multiplexing (1, wire (ascii "pong"))
              ++ (response_frames multiplexing (1, wire (ascii "pong")) ++ [])))
run_resends_example =
    run_resends multiplexing delivers 2 1 pinged echo_service pending (omega arith) pending-IsIdle
      (unfold pending-IsIdle leading in refl)
