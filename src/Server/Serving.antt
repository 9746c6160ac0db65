-- ===== src/Server/Serving.antt =====
-- The DATA frames of a stream as a connection of src/server.rs reads them, one in each round of its
-- loop, and what it has sent after the last.
use grpc_rust.Prelude.{
  ℕ, ◌<◌, ◌≡◌, ◌≢◌, ◌∙◌, refl, sym, subst, false, List, [], ◌∷◌, ◌++◌, Bytes, All, none,
}
use grpc_rust.Outcome.{returns, ◌>>=◌}
use grpc_rust.Grpc.Word.{Endian}
use grpc_rust.Method.{ServerServiceDefinition}
use grpc_rust.Solicit.{Solicit, ok}
use grpc_rust.Server.Stream.{GrpcStream, new_data_chunk}
use grpc_rust.Server.Lifecycle.{new_data_chunk-Processed}
use grpc_rust.Server.Connection.{
  nothing, ServerHttp, GrpcServerConnection, due, handle_requests, reap_streams, handle_next,
}
use grpc_rust.Server.Responses.{
  Frame, Delivers, all_frames, push_all, log-push_all, view-push_all, handle_next-push_all,
}

-- A stream that is not closed and has nothing queued for the session to send.
abbrev pub IsOpen : {http : Solicit} → ℕ × GrpcStream http → Type 0
IsOpen {http} (id, s) = (http.is_closed s.state ≡ false) × (s.cursor ≡ none)

-- How the session hands a DATA frame on: the first stream of the frame's number takes the chunk, the other streams
-- stay. `incoming` is what the peer has sent, as stream numbers and chunks. Sending changes nothing
-- of it. For a session whose streams are open and have nothing queued, a flush sends nothing and
-- reaping keeps the streams.
pub record Receives {http : Solicit} {api : ServerHttp http} (d : Delivers api) (endian : Endian)
    : Type 0 where
  pub incoming : api.Conn → List (ℕ × Bytes)
  pub received : api.Conn → api.Conn
  pub put : api.Sessions → ℕ → GrpcStream http → api.Sessions
  pub incoming_push : (c : api.Conn) (f : Frame http) → incoming (d.push c f) ≡ incoming c
  pub log_received : (c : api.Conn) → d.log (received c) ≡ d.log c
  pub incoming_received :
      (c : api.Conn) (frame : ℕ × Bytes) (rest : List (ℕ × Bytes))
      → incoming c ≡ frame ∷ rest
      → incoming (received c) ≡ rest
  pub iter_put :
      (state : api.Sessions) (id : ℕ) (front back : List (ℕ × GrpcStream http))
      (s s' : GrpcStream http)
      → All (λ e. e.0 ≢ id) front
      → api.iter state ≡ front ++ (id, s) ∷ back
      → api.iter (put state id s') ≡ front ++ (id, s') ∷ back
  pub read_data :
      (service : ServerServiceDefinition) (c : api.Conn) (state : api.Sessions) (id : ℕ)
      (chunk : Bytes) (rest : List (ℕ × Bytes)) (front back : List (ℕ × GrpcStream http))
      (s : GrpcStream http)
      → incoming c ≡ (id, chunk) ∷ rest
      → All (λ e. e.0 ≢ id) front
      → api.iter state ≡ front ++ (id, s) ∷ back
      → api.read_frame service c state
        ≡ (new_data_chunk endian chunk s >>= λ s'. returns (ok (received c, put state id s')))
  pub quiet :
      (c : api.Conn) (state : api.Sessions)
      → All IsOpen (api.iter state)
      → api.send_next_data c state ≡ ok (nothing, c, state)
  pub kept :
      (state : api.Sessions)
      → All IsOpen (api.iter state)
      → api.iter (reap_streams api state) ≡ api.iter state

All-replace {ℓ κ} :
    {A : Type ℓ} (P : A → Type κ) (xs ys : List A) (a b : A)
    → (P a → P b)
    → All P (xs ++ a ∷ ys)
    → All P (xs ++ b ∷ ys)
All-replace P [] ys a b f (h, rest) = (f h, rest)
All-replace P (x ∷ xs) ys a b f (h, rest) = (h, All-replace P xs ys a b f rest)

pub All-at {ℓ κ} :
    {A : Type ℓ} (P : A → Type κ) (xs ys : List A) (a : A) → All P (xs ++ a ∷ ys) → P a
All-at P [] ys a (h, rest) = h
All-at P (x ∷ xs) ys a (h, rest) = All-at P xs ys a rest

module _ {http : Solicit} {api : ServerHttp http} {d : Delivers api} {endian : Endian}
    (r : Receives d endian) (service : ServerServiceDefinition) (id : ℕ)
    (front back : List (ℕ × GrpcStream http)) (first : All (λ e. e.0 ≢ id) front) where
  open r use {incoming, received, put}

  -- The connection waits for these DATA frames, with `s` as the stream of the number.
  pub record Hosts (self : GrpcServerConnection api) (s : GrpcStream http)
      (frames : List (ℕ × Bytes)) : Type 0 where
    pub serves : self.factory ≡ service
    pub waiting : incoming self.conn ≡ frames
    pub hosted : api.iter self.state ≡ front ++ (id, s) ∷ back

  pub chunk-IsOpen :
      (chunk : Bytes) (s s' : GrpcStream http)
      → new_data_chunk endian chunk s ≡ returns s'
      → All IsOpen (front ++ (id, s) ∷ back)
      → All IsOpen (front ++ (id, s') ∷ back)
  chunk-IsOpen chunk s s' h open_streams =
      let p = new_data_chunk-Processed endian chunk s s' h in
      All-replace IsOpen front back (id, s) (id, s')
        (λ o. (rw p.state_kept o.0, p.cursor_kept ∙ o.1)) open_streams

  -- One round: the chunk is taken, and what the streams then have to say is sent.
  pub serve_round :
      (fuel : ℕ) (self : GrpcServerConnection api) (chunk : Bytes) (rest : List (ℕ × Bytes))
      (s s' : GrpcStream http)
      → 0 < fuel
      → Hosts self s ((id, chunk) ∷ rest)
      → new_data_chunk endian chunk s ≡ returns s'
      → All IsOpen (front ++ (id, s) ∷ back)
      → (self' : GrpcServerConnection api) × (handle_next api fuel self ≡ returns (ok self'))
        × Hosts self' s' rest
        × (d.log self'.conn
            ≡ d.log self.conn ++ all_frames api (due api (front ++ (id, s') ∷ back)))
  unfolding handle_requests
  serve_round fuel self chunk rest s s' h hosts taken open_streams =
      let state' = put self.state id s' in
      let there = r.iter_put self.state id front back s s' first hosts.hosted in
      let still_open =
        subst (All IsOpen) (sym there) (chunk-IsOpen chunk s s' taken open_streams) in
      let responses = handle_requests api (record self { state = state' }) in
      (
        record self {
          conn = push_all api d (received self.conn) responses;
          state = reap_streams api state';
        },
        handle_next-push_all api d fuel self (received self.conn) state' h
            (r.read_data self.factory self.conn self.state id chunk rest front back s hosts.waiting
                first hosts.hosted
              ∙ rw taken refl)
            (λ c. r.quiet c state' still_open),
        record {
          serves = hosts.serves;
          waiting =
              view-push_all api d incoming r.incoming_push (received self.conn) responses
              ∙ r.incoming_received self.conn (id, chunk) rest hosts.waiting;
          hosted = r.kept state' still_open ∙ there;
        },
        log-push_all api d (received self.conn) responses
            ∙ (λ i. r.log_received self.conn i ++ all_frames api (due api (there i))),
      )
