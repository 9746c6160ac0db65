-- ===== src/Tests/Threads.antt =====
-- A server with a client that speaks no HTTP/2 and one that does.
use grpc_rust.Prelude.{◌≡◌, refl, none, some, List, [], ◌∷◌, ◌++◌, Bytes, map, ascii, bytes_eq}
use grpc_rust.Outcome.{returns, panics, bad_preface, unwrap_err}
use grpc_rust.Server.Connection.{connect, preface}
use grpc_rust.Server.Responses.{Frame}
use grpc_rust.Server.Accept.{
  Thread, ServerEvent, incoming, turn, spawned, serving, panicked, grpc_server, accept, run,
  thread_step,
}
use grpc_rust.Server.Threads.{Reach, here, next, accepts, steps, alone, Reach-alone}
use grpc_rust.Tests.Fixtures.{toy_http, echo_service}
use grpc_rust.Helloworld.Greeter.{service_definition}
use grpc_rust.Helloworld.Programs.{greeter_impl, server_main, temp_service, temp_main}
use grpc_rust.Helloworld.Mains.{serves, mains_serve}
use grpc_rust.Tests.Protobufs.{toy_rt}
use grpc_rust.Tests.Connections.{recording}

abbrev attach : List (Frame toy_http) → Bytes → List (Frame toy_http)
attach c rest = c

abbrev bad_client : Bytes
bad_client = ascii "GET / HTTP/1.1 and much more"

abbrev good_client : Bytes
good_client = preface ++ 1 ∷ []

abbrev after_steps : List (Thread recording attach)
after_steps =
    panicked bad_preface ∷ serving (record { conn = []; factory = echo_service; state = [] }) ∷ []

reached : Reach recording attach 1 echo_service [] after_steps
unfolding accept thread_step connect bytes_eq
reached =
    next {t = panicked bad_preface ∷ spawned good_client ∷ []}
      (next {t = spawned bad_client ∷ spawned good_client ∷ []}
        (next {t = spawned bad_client ∷ []} (next here (accepts bad_client refl))
          (accepts good_client refl))
        (steps 0 refl))
      (steps 1 refl)

Reach-alone_example :
    after_steps
    ≡ map (alone recording attach 1 echo_service) ((bad_client, 1) ∷ (good_client, 1) ∷ [])
unfolding reached
Reach-alone_example = Reach-alone recording attach 1 echo_service reached

abbrev two_clients : List ServerEvent
two_clients = incoming (some bad_client) ∷ incoming (some good_client) ∷ turn 0 ∷ turn 1 ∷ []

mains_serve_example :
    (server_main toy_rt recording attach 1 (some tt) two_clients
      ≡ serves recording attach 1
          (service_definition toy_rt (greeter_impl toy_rt))
          (some tt)
          two_clients)
    × (temp_main recording attach 1 (some tt) two_clients
        ≡ serves recording attach 1 temp_service (some tt) two_clients)
mains_serve_example = mains_serve recording attach 1 toy_rt (some tt) two_clients

-- temp-server's threads after these events, and its panic on a failed accept.
temp_main_threads :
    temp_main recording attach 1 (some tt) two_clients
    ≡ returns (
        panicked bad_preface
        ∷ serving (record { conn = []; factory = temp_service; state = [] })
        ∷ [])
unfolding temp_main grpc_server run accept thread_step connect bytes_eq
temp_main_threads = refl

temp_main_failed :
    temp_main recording attach 1 (some tt) (incoming (some bad_client) ∷ incoming none ∷ [])
    ≡ panics unwrap_err
unfolding temp_main grpc_server run accept
temp_main_failed = refl
