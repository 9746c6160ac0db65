-- ===== src/Server/Running.antt =====
-- `GrpcServer::run` (src/server.rs) over any events, against the count of every client's turns.
use mathlib.Core.List.{map-append}
use grpc_rust.Prelude.{
  ℕ, ◌≡◌, ◌∙◌, refl, ap, sym, Option, none, some, List, [], ◌∷◌, ◌++◌, map, Bytes,
}
use grpc_rust.Outcome.{Outcome, returns, panics, unwrap_err}
use grpc_rust.Solicit.{Solicit}
use grpc_rust.Server.Connection.{ServerHttp}
use grpc_rust.Server.Accept.{
  GrpcServer, Thread, ServerEvent, incoming, turn, update_at, thread_step, accept, run,
}
use grpc_rust.Server.Threads.{once_more, alone, step-alone, map-update_at}

-- The clients in the order of their accepts, each with the number of its turns, or none after a
-- failed accept.
abbrev pub tally : List ServerEvent → List (Bytes × ℕ) → Option (List (Bytes × ℕ))
tally [] clients = some clients
tally (incoming none ∷ events) clients = none
tally (incoming (some stream) ∷ events) clients = tally events (clients ++ (stream, 0) ∷ [])
tally (turn i ∷ events) clients = tally events (update_at i once_more clients)

module _ {http : Solicit} (api : ServerHttp http) (attach : api.Conn → Bytes → api.Conn)
    (fuel : ℕ) where
  -- What `run` comes to: every thread is where its client's connection is on its own.
  abbrev pub served : GrpcServer → Option (List (Bytes × ℕ)) → Outcome (List (Thread api attach))
  served self none = panics unwrap_err
  served self (some clients) = returns (map (alone api attach fuel self.service_definition) clients)

  pub run-tally :
      (self : GrpcServer) (events : List ServerEvent) (clients : List (Bytes × ℕ))
      → run api attach fuel self events
          (map (alone api attach fuel self.service_definition) clients)
        ≡ served self (tally events clients)
  unfolding run accept
  run-tally self [] clients = refl
  run-tally self (incoming none ∷ events) clients = refl
  run-tally self (incoming (some stream) ∷ events) clients =
      ap (run api attach fuel self events) (
        sym (map-append (alone api attach fuel self.service_definition) clients ((stream, 0) ∷ [])))
      ∙ run-tally self events (clients ++ (stream, 0) ∷ [])
  run-tally self (turn i ∷ events) clients =
      ap (run api attach fuel self events) (
        sym (
          map-update_at (alone api attach fuel self.service_definition) once_more
            (thread_step api attach fuel self.service_definition)
            (step-alone api attach fuel self.service_definition) i clients))
      ∙ run-tally self events (update_at i once_more clients)
