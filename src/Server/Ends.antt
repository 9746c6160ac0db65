-- ===== src/Server/Ends.antt =====
-- How a round of a connection's loop in src/server.rs ends the loop.
use grpc_rust.Prelude.{ℕ, zero, suc, ◌<◌, ◌≡◌, refl, true, false, List, ◌∷◌, Bytes, arith}
use grpc_rust.Outcome.{Panic, returns, panics}
use grpc_rust.Solicit.{Solicit, ok, failed, Io, ◌>>=◌, then-eq-ok, returned_ok}
use grpc_rust.Server.Connection.{
  sent, ServerHttp, GrpcServerConnection, handle_requests, response_headers, trailers,
  prepare_responses, flush_streams, handle_next, run,
}

module _ {http : Solicit} (api : ServerHttp http) where
  open api use {Conn, Sessions}

  -- One of the three sends of one of the responses fails, behind those that are sent.
  pub data SendFails (e : http.HttpError) : Conn → List (ℕ × Bytes) → Type 0 where
    headers_fail :
        {c : Conn} {rest : List (ℕ × Bytes)} (id : ℕ) (body : Bytes)
        → api.send_headers c (response_headers api) id false ≡ failed e
        → SendFails e c ((id, body) ∷ rest)
    data_fails :
        {c : Conn} {rest : List (ℕ × Bytes)} (id : ℕ) (body : Bytes) (c1 : Conn)
        → api.send_headers c (response_headers api) id false ≡ ok c1
        → api.send_data c1 body id false ≡ failed e
        → SendFails e c ((id, body) ∷ rest)
    trailers_fail :
        {c : Conn} {rest : List (ℕ × Bytes)} (id : ℕ) (body : Bytes) (c1 c2 : Conn)
        → api.send_headers c (response_headers api) id false ≡ ok c1
        → api.send_data c1 body id false ≡ ok c2
        → api.send_headers c2 (trailers api) id true ≡ failed e
        → SendFails e c ((id, body) ∷ rest)
    later :
        {c : Conn} {rest : List (ℕ × Bytes)} (id : ℕ) (body : Bytes) (c1 c2 c3 : Conn)
        → api.send_headers c (response_headers api) id false ≡ ok c1
        → api.send_data c1 body id false ≡ ok c2
        → api.send_headers c2 (trailers api) id true ≡ ok c3
        → SendFails e c3 rest
        → SendFails e c ((id, body) ∷ rest)

  prepare_responses-SendFails :
      {e : http.HttpError} {c : Conn} {responses : List (ℕ × Bytes)}
      → SendFails e c responses
      → prepare_responses api c responses ≡ returns (failed e)
  unfolding prepare_responses
  prepare_responses-SendFails (headers_fail id body h) = rw h
  prepare_responses-SendFails (data_fails id body c1 h d) = rw h (rw d)
  prepare_responses-SendFails (trailers_fail id body c1 c2 h d t) = rw h (rw d (rw t))
  prepare_responses-SendFails (later id body c1 c2 c3 h d t f) =
      rw h (rw d (rw t (prepare_responses-SendFails f)))

  -- The flush sends `n` frames of data, and more may be left.
  abbrev pub Flushing : ℕ → Conn × Sessions → Conn × Sessions → Type 0
  Flushing zero s s' = s ≡ s'
  Flushing (suc n) s s' =
      (s1 : Conn × Sessions) × (api.send_next_data s.0 s.1 ≡ ok (sent, s1.0, s1.1))
      × Flushing n s1 s'

  flush_streams_fails :
      (n fuel : ℕ) (s s' : Conn × Sessions) (e : http.HttpError)
      → Flushing n s s'
      → api.send_next_data s'.0 s'.1 ≡ failed e
      → n < fuel
      → flush_streams api fuel s.0 s.1 ≡ returns (failed e)
  unfolding flush_streams
  flush_streams_fails n zero s s' e g f h = absurd (omega arith)
  flush_streams_fails zero (suc fuel) s s' e g f h = rw (g, flush_streams) (rw f)
  flush_streams_fails (suc n) (suc fuel) s s' e (s1, more, g) f h =
      rw more (flush_streams_fails n fuel s1 s' e g f (omega arith))

  -- The round ends the loop: the frame is not read, or a stream that it concerns panics; or a send of
  -- a response fails; or the flush fails, after fewer frames than the fuel.
  pub data Ends (fuel : ℕ) (self : GrpcServerConnection api)
      : Io http.HttpError (GrpcServerConnection api) → Type 0 where
    read_fails :
        (e : http.HttpError)
        → api.read_frame self.factory self.conn self.state ≡ returns (failed e)
        → Ends fuel self (returns (failed e))
    read_panics :
        (p : Panic)
        → api.read_frame self.factory self.conn self.state ≡ panics p
        → Ends fuel self (panics p)
    send_fails :
        (e : http.HttpError) (c : Conn) (state : Sessions)
        → api.read_frame self.factory self.conn self.state ≡ returns (ok (c, state))
        → SendFails e c (handle_requests api (record self { conn = c; state = state }))
        → Ends fuel self (returns (failed e))
    flush_fails :
        (e : http.HttpError) (n : ℕ) (c c1 : Conn) (state : Sessions) (s' : Conn × Sessions)
        → api.read_frame self.factory self.conn self.state ≡ returns (ok (c, state))
        → prepare_responses api c (handle_requests api (record self { conn = c; state = state }))
          ≡ returns (ok c1)
        → Flushing n (c1, state) s'
        → api.send_next_data s'.0 s'.1 ≡ failed e
        → n < fuel
        → Ends fuel self (returns (failed e))

  handle_next-Ends :
      (fuel : ℕ) (self : GrpcServerConnection api)
      (o : Io http.HttpError (GrpcServerConnection api))
      → Ends fuel self o
      → handle_next api fuel self ≡ o
  unfolding handle_next
  handle_next-Ends fuel self o (read_fails e r) = rw r
  handle_next-Ends fuel self o (read_panics p r) = rw r
  handle_next-Ends fuel self o (send_fails e c state r f) =
      rw r (rw (prepare_responses-SendFails f))
  handle_next-Ends fuel self o (flush_fails e n c c1 state s' r p g f h) =
      rw r (rw p (rw (flush_streams_fails n fuel (c1, state) s' e g f h)))

  Ends-bind :
      (fuel : ℕ) (self : GrpcServerConnection api)
      (o : Io http.HttpError (GrpcServerConnection api))
      (f : GrpcServerConnection api → Io http.HttpError (GrpcServerConnection api))
      → Ends fuel self o
      → (o >>= f) ≡ o
  Ends-bind fuel self o f (read_fails e r) = refl
  Ends-bind fuel self o f (read_panics p r) = refl
  Ends-bind fuel self o f (send_fails e c state r s) = refl
  Ends-bind fuel self o f (flush_fails e n c c1 state s' r p g s h) = refl

  -- After rounds that go well, the first round with an error or a panic ends the loop with that error
  -- or that panic, wherever in the round it comes up; no later round runs.
  pub run-Ends :
      (rounds n fuel : ℕ) (self self' : GrpcServerConnection api)
      (o : Io http.HttpError (GrpcServerConnection api))
      → rounds < n
      → run api rounds fuel self ≡ returns (ok self')
      → Ends fuel self' o
      → run api n fuel self ≡ o
  unfolding run
  run-Ends rounds zero fuel self self' o h good ends = absurd (omega arith)
  run-Ends zero (suc n) fuel self self' o h good ends =
      rw (returned_ok good)
        (rw (handle_next-Ends fuel self' o ends) (Ends-bind fuel self' o (run api n fuel) ends))
  run-Ends (suc rounds) (suc n) fuel self self' o h good ends =
      then-eq-ok (handle_next api fuel self) _ good
        λ next first rest. rw first (run-Ends rounds n fuel next self' o (omega arith) rest ends)
