-- ===== src/Tests/Requests.antt =====
-- A whole request at a concrete input: the client's headers and body on a new stream of the server.
use grpc_rust.Prelude.{◌≡◌, refl, true, some, [], ◌∷◌, ascii, arith}
use grpc_rust.Outcome.{returns}
use grpc_rust.Grpc.Word.{little, big}
use grpc_rust.Grpc.RoundTrip.{wire}
use grpc_rust.Marshall.{marshaller_bytes-Carries}
use grpc_rust.Marshall.Utf8.{is_utf8}
use grpc_rust.Method.{method_handler_echo}
use grpc_rust.Server.Stream.{GrpcStream}
use grpc_rust.Client.Call.{new_stream, response_value}
use grpc_rust.EndToEnd.{request_body-wire}
use grpc_rust.EndToEnd.FreshStream.{HasHeaders, served_request, unary_request}
use grpc_rust.Tests.Fixtures.{toy_http, say_hello, echo_descriptor, echo_service}
use grpc_rust.Tests.Clients.{echoing, caller, done_conn}

pub toy-HasHeaders : HasHeaders toy_http
toy-HasHeaders = record { name_of = λ n v. refl; value_of = λ n v. refl }

pub say_hello_utf8 : is_utf8 say_hello ≡ true
unfolding is_utf8
say_hello_utf8 = refl

unary_request_example :
    (stream' : GrpcStream toy_http) × (served_request big echo_service 3
        (new_stream echoing
          (caller done_conn)
          (ascii "POST")
          say_hello
          []
          (some (wire (ascii "ping")))).0
        ((0 ∷ 0 ∷ []) ∷ (0 ∷ 0 ∷ 4 ∷ ascii "ping") ∷ [])
      ≡ returns stream')
    × (stream'.req_buf ≡ [])
    × (response_value little echo_descriptor stream'.resp_buf ≡ returns (ascii "ping"))
unary_request_example =
    unary_request toy-HasHeaders echoing little big echo_descriptor method_handler_echo [] [] tt
      (caller done_conn) 3 (ascii "ping") (ascii "ping") (ascii "ping") (ascii "ping")
      (wire (ascii "ping")) (0 ∷ 0 ∷ []) ((0 ∷ 0 ∷ 4 ∷ ascii "ping") ∷ []) say_hello_utf8
      (marshaller_bytes-Carries (ascii "ping")) (unfold method_handler_echo in refl)
      (marshaller_bytes-Carries (ascii "ping")) (omega arith) (omega arith)
      (request_body-wire echo_descriptor little (ascii "ping") (ascii "ping")
        (marshaller_bytes-Carries (ascii "ping")))
      refl
