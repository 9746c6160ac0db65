-- ===== src/Client/Wait.antt =====
-- How `get_response` of src/client.rs waits.
use grpc_rust.Prelude.{ℕ, zero, suc, ◌<◌, ◌≡◌, true, none, some, List, Bytes, arith}
use grpc_rust.Outcome.{returns}
use grpc_rust.Solicit.{Solicit, ok, failed}
use grpc_rust.Client.Call.{ClientHttp, GrpcClient, finished, wait, get_response}

module _ {http : Solicit} (api : ClientHttp http) where
  open api use {Conn}

  -- The response is not there yet: the stream is open, or unknown.
  abbrev pub Pending : ℕ → Conn → Type 0
  Pending id c = finished api (api.get_stream c id) id ≡ none

  -- Reading `n` frames leads from one connection to the other, with the response pending before each.
  abbrev pub Arrives : ℕ → ℕ → Conn → Conn → Type 0
  Arrives id zero c c' = c ≡ c'
  Arrives id (suc n) c c' =
      (c1 : Conn) × Pending id c × (api.read_frame c ≡ ok c1) × Arrives id n c1 c'

  abbrev client : Bytes → Conn → GrpcClient api
  client host c = record { host = host; conn = c }

  wait_finished :
      (n fuel id : ℕ) (host : Bytes) (c c' : Conn) (s : api.Stream) (hs : List http.Header)
      → Arrives id n c c'
      → api.get_stream c' id ≡ some s
      → api.is_closed s ≡ true
      → api.stream_headers s ≡ some hs
      → n < fuel
      → wait api fuel (client host c) id
        ≡ returns
            (ok (record { stream_id = id; headers = hs; body = api.stream_body s }, client host c'))
  unfolding wait finished
  wait_finished n zero id host c c' s hs a found closed headers h = absurd (omega arith)
  wait_finished zero (suc fuel) id host c c' s hs a found closed headers h =
      rw a (rw (found, wait) (rw closed (rw headers)))
  wait_finished (suc n) (suc fuel) id host c c' s hs (c1, p, r, a) found closed headers h =
      rw (p, wait)
        (rw r (wait_finished n fuel id host c1 c' s hs a found closed headers (omega arith)))

  wait_fails :
      (n fuel id : ℕ) (host : Bytes) (c c' : Conn) (e : http.HttpError)
      → Arrives id n c c'
      → Pending id c'
      → api.read_frame c' ≡ failed e
      → n < fuel
      → wait api fuel (client host c) id ≡ returns (failed e)
  unfolding wait
  wait_fails n zero id host c c' e a p r h = absurd (omega arith)
  wait_fails zero (suc fuel) id host c c' e a p r h = rw a (rw (p, wait) (rw r))
  wait_fails (suc n) (suc fuel) id host c c' e (c1, p1, r1, a) p r h =
      rw (p1, wait) (rw r1 (wait_fails n fuel id host c1 c' e a p r (omega arith)))

  -- If `n` frames arrive before the response of a known stream is complete, `get_response` returns it
  -- after reading exactly these, on any fuel above `n`: the headers and the body of the stream.
  pub get_response-finished :
      (n fuel id : ℕ) (host : Bytes) (c c' : Conn) (known s : api.Stream) (hs : List http.Header)
      → api.get_stream c id ≡ some known
      → Arrives id n c c'
      → api.get_stream c' id ≡ some s
      → api.is_closed s ≡ true
      → api.stream_headers s ≡ some hs
      → n < fuel
      → get_response api fuel (client host c) id
        ≡ returns
            (ok (record { stream_id = id; headers = hs; body = api.stream_body s }, client host c'))
  unfolding get_response
  get_response-finished n fuel id host c c' known s hs k a found closed headers h =
      rw (k, get_response) (wait_finished n fuel id host c c' s hs a found closed headers h)

  -- On a known stream, an error of the connection is the result of `get_response`, on any fuel above
  -- `n`, if `n` frames arrive before it and the response is still pending then.
  pub get_response-fails :
      (n fuel id : ℕ) (host : Bytes) (c c' : Conn) (known : api.Stream) (e : http.HttpError)
      → api.get_stream c id ≡ some known
      → Arrives id n c c'
      → Pending id c'
      → api.read_frame c' ≡ failed e
      → n < fuel
      → get_response api fuel (client host c) id ≡ returns (failed e)
  unfolding get_response
  get_response-fails n fuel id host c c' known e k a p r h =
      rw (k, get_response) (wait_fails n fuel id host c c' e a p r h)

  -- On an unknown stream `get_response` fails at once, and nothing is read.
  pub get_response-unknown :
      (fuel id : ℕ) (self : GrpcClient api)
      → api.get_stream self.conn id ≡ none
      → get_response api fuel self id ≡ returns (failed http.unknown_stream_id)
  unfolding get_response
  get_response-unknown fuel id self h = rw (h, get_response)
