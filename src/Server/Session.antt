-- ===== src/Server/Session.antt =====
-- How the HTTP/2 session of `solicit` hands what a peer sends to the streams of src/server.rs, stream by
-- stream, and what one stream comes to that is alone on its connection.
pub mod Steps
pub mod Rounds
pub mod Alone
use grpc_rust.Prelude.{
  ℕ, ◌≡◌, ◌≢◌, Bool, true, false, Option, none, some, List, [], ◌∷◌, ◌++◌, Bytes, filter, ◌==◌,
  if◌then◌else◌,
}
use grpc_rust.Outcome.{Outcome, returns, ◌>>=◌}
use grpc_rust.Grpc.Word.{Endian}
use grpc_rust.Method.{ServerServiceDefinition}
use grpc_rust.Solicit.{Solicit, ok, Io}
use grpc_rust.Server.Stream.{GrpcStream, create, set_headers, new_data_chunk, set_state}
use grpc_rust.Server.Connection.{nothing, ServerHttp, reap_streams}
use grpc_rust.Server.Responses.{Frame, Delivers}

-- What a peer sends: headers or data on a stream, with their END_STREAM flag; a reset of a stream; or a
-- frame that concerns no stream.
pub data Incoming (http : Solicit) : Type 0 where
  headers_in : ℕ → List http.Header → Bool → Incoming http
  data_in : ℕ → Bytes → Bool → Incoming http
  reset_in : ℕ → Incoming http
  other_in : Incoming http

-- The transitions of a stream's state that the session's default methods make.
pub record Transitions (http : Solicit) : Type 0 where
  pub close_remote : http.StreamState → http.StreamState
  pub closed_state : http.StreamState

module _ {http : Solicit} where
  abbrev pub concerns : ℕ → Incoming http → Bool
  concerns id (headers_in n hs end) = n == id
  concerns id (data_in n chunk end) = n == id
  concerns id (reset_in n) = n == id
  concerns id other_in = false

  -- The frames of one stream, in their order.
  abbrev pub own : ℕ → List (Incoming http) → List (Incoming http)
  own id frames = filter (concerns id) frames

  -- A closed stream is dropped at the end of the round.
  abbrev pub still_open : Option (GrpcStream http) → Option (GrpcStream http)
  still_open none = none
  still_open (some s) = if http.is_closed s.state then none else some s

  module _ (tr : Transitions http) (endian : Endian) (service : ServerServiceDefinition)
      (id : ℕ) where
    -- The end of the peer's side, if the frame has the flag.
    abbrev pub ended : Bool → GrpcStream http → Option (GrpcStream http)
    ended true s = some (set_state (tr.close_remote s.state) s)
    ended false s = some s

    -- What the session does to a stream with a frame of it. The factory makes a stream for headers of a
    -- new number; headers of a known one are trailers. Data and a reset of an unknown one are ignored.
    unfoldable pub handed :
        Incoming http → Option (GrpcStream http) → Outcome (Option (GrpcStream http))
    handed (headers_in n hs end) none =
        set_headers hs (create http service id) >>= λ s. returns (ended end s)
    handed (headers_in n hs end) (some s) = set_headers hs s >>= λ s'. returns (ended end s')
    handed (data_in n chunk end) none = returns none
    handed (data_in n chunk end) (some s) =
        new_data_chunk endian chunk s >>= λ s'. returns (ended end s')
    handed (reset_in n) none = returns none
    handed (reset_in n) (some s) = returns (some (set_state tr.closed_state s))
    handed other_in o = returns o

    -- A stream that is alone on its connection, frame by frame.
    unfoldable pub life :
        List (Incoming http) → Option (GrpcStream http) → Outcome (Option (GrpcStream http))
    life [] o = returns o
    life (f ∷ frames) o = handed f o >>= λ o'. life frames (still_open o')

-- A session that does so. `incoming` is what the peer has sent and is still to be read; sending changes
-- nothing of it. `stream_of` is the session's stream of a number, and `put` sets it. A flush sends
-- nothing if no stream has anything queued, and reaping drops the closed streams.
pub record Dispatches {http : Solicit} {api : ServerHttp http} (d : Delivers api) (endian : Endian)
    : Type 0 where
  pub transitions : Transitions http
  pub incoming : api.Conn → List (Incoming http)
  pub received : api.Conn → api.Conn
  pub stream_of : api.Sessions → ℕ → Option (GrpcStream http)
  pub put : api.Sessions → ℕ → Option (GrpcStream http) → api.Sessions
  pub incoming_push : (c : api.Conn) (f : Frame http) → incoming (d.push c f) ≡ incoming c
  pub incoming_received :
      (c : api.Conn) (f : Incoming http) (rest : List (Incoming http))
      → incoming c ≡ f ∷ rest
      → incoming (received c) ≡ rest
  pub stream_of_new : (id : ℕ) → stream_of api.new_sessions id ≡ none
  pub stream_of_put :
      (state : api.Sessions) (id n : ℕ) (o : Option (GrpcStream http))
      → stream_of (put state id o) n ≡ (if id == n then o else stream_of state n)
  pub iter_stream_of :
      (state : api.Sessions) (id : ℕ) (s : GrpcStream http)
      → stream_of state id ≡ some s
      → (front back : List (ℕ × GrpcStream http)) × (api.iter state ≡ front ++ (id, s) ∷ back)
  pub read_other :
      (service : ServerServiceDefinition) (c : api.Conn) (state : api.Sessions)
      (rest : List (Incoming http))
      → incoming c ≡ other_in ∷ rest
      → api.read_frame service c state ≡ returns (ok (received c, state))
  pub read_own :
      (service : ServerServiceDefinition) (c : api.Conn) (state : api.Sessions) (id : ℕ)
      (f : Incoming http) (rest : List (Incoming http))
      → incoming c ≡ f ∷ rest
      → concerns id f ≡ true
      → api.read_frame service c state ≡ (
          handed transitions endian service id f (stream_of state id) >>= λ o.
          returns (ok (received c, put state id o)))
  pub quiet :
      (c : api.Conn) (state : api.Sessions)
      → ((id : ℕ) (s : GrpcStream http) → stream_of state id ≡ some s → s.cursor ≡ none)
      → api.send_next_data c state ≡ ok (nothing, c, state)
  pub reaped :
      (state : api.Sessions) (id : ℕ)
      → stream_of (reap_streams api state) id ≡ still_open (stream_of state id)
