-- ===== src/Helloworld/Mains.antt =====
-- The servers' programs grpc-examples/src/bin/greeter_server.rs and src/bin/temp-server.rs, with any
-- clients.
use grpc_rust.Prelude.{ℕ, ◌≡◌, refl, Option, none, some, List, [], Bytes}
use grpc_rust.Outcome.{Outcome, panics, unwrap_err}
use grpc_rust.Method.{ServerServiceDefinition}
use grpc_rust.Solicit.{Solicit}
use grpc_rust.Server.Connection.{ServerHttp}
use grpc_rust.Server.Accept.{Thread, ServerEvent, grpc_server}
use grpc_rust.Server.Running.{tally, served, run-tally}
use grpc_rust.Helloworld.Runtime.{Runtime}
use grpc_rust.Helloworld.Greeter.{service_definition, greeter_server, run_server}
use grpc_rust.Helloworld.Programs.{greeter_impl, server_main, temp_service, temp_main}

module _ {http : Solicit} (api : ServerHttp http) (attach : api.Conn → Bytes → api.Conn)
    (fuel : ℕ) where
  -- What a server's program comes to: without its address it panics; else every thread is where its
  -- client's connection is on its own.
  abbrev pub serves :
      ServerServiceDefinition
      → Option (Unit {0})
      → List ServerEvent
      → Outcome (List (Thread api attach))
  serves service none events = panics unwrap_err
  serves service (some bound) events =
      served api attach fuel (record { service_definition = service }) (tally events [])

  temp_main-serves :
      (bound : Option (Unit {0})) (events : List ServerEvent)
      → temp_main api attach fuel bound events ≡ serves temp_service bound events
  unfolding temp_main grpc_server
  temp_main-serves none events = refl
  temp_main-serves (some bound) events =
      run-tally api attach fuel (record { service_definition = temp_service }) events []

  module _ (rt : Runtime) where
    server_main-serves :
        (bound : Option (Unit {0})) (events : List ServerEvent)
        → server_main rt api attach fuel bound events
          ≡ serves (service_definition rt (greeter_impl rt)) bound events
    unfolding server_main greeter_server grpc_server run_server
    server_main-serves none events = refl
    server_main-serves (some bound) events =
        run-tally api attach fuel
          (record { service_definition = service_definition rt (greeter_impl rt) }) events []

    -- Whatever clients connect and in whatever order the threads take their turns: the greeter's
    -- server and temp-server, each with its own service, panic if their address is not free or an
    -- accept fails, and in no other case. Else they have one thread for each client, in the order of
    -- the accepts, and each is where its client's connection is on its own after as many turns: a
    -- connect and rounds of `run`.
    pub mains_serve :
        (bound : Option (Unit {0})) (events : List ServerEvent)
        → (server_main rt api attach fuel bound events
            ≡ serves (service_definition rt (greeter_impl rt)) bound events)
          × (temp_main api attach fuel bound events ≡ serves temp_service bound events)
    mains_serve bound events = (server_main-serves bound events, temp_main-serves bound events)
