-- ===== src/Server/Accept.antt =====
-- `GrpcServer` of src/server.rs: the loop that accepts clients, with a thread for each of them.
use grpc_rust.Prelude.{ℕ, zero, suc, Option, none, some, List, [], ◌∷◌, ◌++◌, Bytes}
use grpc_rust.Outcome.{Panic, Outcome, returns, panics, stuck, unwrap_err, expect, ◌>>◌, ◌>>=◌}
use grpc_rust.Method.{ServerServiceDefinition}
use grpc_rust.Solicit.{Solicit, ok, failed, Io}
use grpc_rust.Server.Connection.{ServerHttp, GrpcServerConnection, connect, handle_next}

-- The listener is the accept events.
pub record GrpcServer : Type 0 where
  pub service_definition : ServerServiceDefinition

-- `GrpcServer::new`, on the result of binding the address.
unfoldable pub grpc_server : Option (Unit {0}) → ServerServiceDefinition → Outcome GrpcServer
grpc_server bound service_definition = do
  expect bound unwrap_err
  returns (record { service_definition = service_definition })

-- The element at a place is replaced by its image; there may be none.
abbrev pub update_at {ℓ} : {A : Type ℓ} → ℕ → (A → A) → List A → List A
update_at i f [] = []
update_at zero f (x ∷ xs) = f x ∷ xs
update_at (suc i) f (x ∷ xs) = x ∷ update_at i f xs

-- What happens next to a server: the listener has a client, with what it sends, or a failed accept;
-- or it is one of the threads' turn.
pub data ServerEvent : Type 0 where
  incoming : Option Bytes → ServerEvent
  turn : ℕ → ServerEvent

-- `attach` gives the connection its socket, with the bytes that the preface has left to read.
module _ {http : Solicit} (api : ServerHttp http) (attach : api.Conn → Bytes → api.Conn) where
  -- A thread of `run`: it has been spawned with the client's socket, or it runs its connection, or
  -- the connection's `run` has returned on an error, or it has panicked. A thread whose flush is
  -- longer than the fuel is `blocked`.
  pub data Thread : Type 0 where
    spawned : Bytes → Thread
    serving : GrpcServerConnection api → Thread
    returned : http.HttpError → Thread
    panicked : Panic → Thread
    blocked : Thread

  abbrev pub started : Outcome (GrpcServerConnection api × Bytes) → Thread
  started (returns (self, rest)) = serving (record self { conn = attach self.conn rest })
  started (panics p) = panicked p
  started stuck = blocked

  abbrev pub round_done : Io http.HttpError (GrpcServerConnection api) → Thread
  round_done (returns (ok self)) = serving self
  round_done (returns (failed e)) = returned e
  round_done (panics p) = panicked p
  round_done stuck = blocked

  -- A step of a thread: `GrpcServerConnection::new`, or a round of the connection's `run`.
  unfoldable pub thread_step : ℕ → ServerServiceDefinition → Thread → Thread
  thread_step fuel service (spawned stream) = started (connect api stream service)
  thread_step fuel service (serving self) = round_done (handle_next api fuel self)
  thread_step fuel service (returned e) = returned e
  thread_step fuel service (panicked p) = panicked p
  thread_step fuel service blocked = blocked

  -- A round of the loop of `GrpcServer::run`; `none` is a failed accept, which is unwrapped.
  unfoldable pub accept : GrpcServer → Option Bytes → List Thread → Outcome (List Thread)
  accept self none threads = panics unwrap_err
  accept self (some stream) threads = returns (threads ++ spawned stream ∷ [])

  -- `GrpcServer::run`, as far as these events go. A panic of its own ends the program.
  unfoldable pub run : ℕ → GrpcServer → List ServerEvent → List Thread → Outcome (List Thread)
  unfolding accept
  run fuel self [] threads = returns threads
  run fuel self (incoming stream ∷ events) threads =
      accept self stream threads >>= run fuel self events
  run fuel self (turn i ∷ events) threads =
      run fuel self events (update_at i (thread_step fuel self.service_definition) threads)
