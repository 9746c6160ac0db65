-- ===== src/Server/Responses.antt =====
-- What a connection of src/server.rs sends.
use grpc_rust.Prelude.{
  ℕ, zero, suc, ◌<◌, ◌≡◌, ◌∙◌, refl, ap, sym, Bool, true, false, List, [], ◌∷◌, ◌++◌, map, Bytes,
  concat, ◌⊎◌, inl, inr, append_assoc, append-nil, arith,
}
use grpc_rust.Outcome.{returns}
use grpc_rust.Solicit.{Solicit, ok}
use grpc_rust.Server.Stream.{GrpcStream}
use grpc_rust.Server.Connection.{
  nothing, ServerHttp, GrpcServerConnection, due, handle_requests, response_headers, trailers,
  prepare_responses, flush_streams, reap_streams, handle_next, run,
}

pub data Frame (http : Solicit) : Type 0 where
  headers_frame : List http.Header → ℕ → Bool → Frame http
  data_frame : Bytes → ℕ → Bool → Frame http

-- A connection that takes every frame that it is given and sends it behind the earlier ones.
pub record Delivers {http : Solicit} (api : ServerHttp http) : Type 0 where
  pub log : api.Conn → List (Frame http)
  pub push : api.Conn → Frame http → api.Conn
  pub log_push : (c : api.Conn) (f : Frame http) → log (push c f) ≡ log c ++ f ∷ []
  pub headers_sent :
      (c : api.Conn) (h : List http.Header) (id : ℕ) (end : Bool)
      → api.send_headers c h id end ≡ ok (push c (headers_frame h id end))
  pub data_sent :
      (c : api.Conn) (b : Bytes) (id : ℕ) (end : Bool)
      → api.send_data c b id end ≡ ok (push c (data_frame b id end))

Bytes-cases : (xs : Bytes) → (xs ≡ []) ⊎ ((b : ℕ) × (bs : Bytes) × (xs ≡ b ∷ bs))
Bytes-cases [] = inl refl
Bytes-cases (b ∷ bs) = inr (b, bs, refl)

module _ {http : Solicit} (api : ServerHttp http) where
  -- A gRPC response: the initial headers, the messages, and the trailers, which end the stream.
  abbrev pub response_frames : ℕ × Bytes → List (Frame http)
  response_frames (id, body) =
      headers_frame (response_headers api) id false
      ∷ data_frame body id false
      ∷ headers_frame (trailers api) id true
      ∷ []

  abbrev pub all_frames : List (ℕ × Bytes) → List (Frame http)
  all_frames responses = concat (map response_frames responses)

  -- The frames that answer streams in their order: a gRPC response for each stream whose response
  -- buffer is not empty, and nothing for the others.
  abbrev pub answer_frames : ℕ → Bytes → List (Frame http)
  answer_frames id [] = []
  answer_frames id (b ∷ bs) = response_frames (id, b ∷ bs)

  abbrev pub answers : List (ℕ × GrpcStream http) → List (Frame http)
  answers [] = []
  answers ((id, s) ∷ rest) = answer_frames id s.resp_buf ++ answers rest

  pub all_frames-due :
      (streams : List (ℕ × GrpcStream http)) → all_frames (due api streams) ≡ answers streams
  unfolding due
  all_frames-due [] = refl
  all_frames-due ((id, s) ∷ rest) = elim (Bytes-cases s.resp_buf) [
    | inl e ↦ rw e (all_frames-due rest)
    | inr (b, bs, e) ↦ rw e (λ i. response_frames (id, e i) ++ all_frames-due rest i)
  ]

  -- A round that goes well, and then the other rounds.
  pub run-suc :
      (rounds fuel : ℕ) (self self1 : GrpcServerConnection api)
      → handle_next api fuel self ≡ returns (ok self1)
      → run api (suc rounds) fuel self ≡ run api rounds fuel self1
  unfolding run
  run-suc rounds fuel self self1 e = rw e refl

module _ {http : Solicit} (api : ServerHttp http) (d : Delivers api) where
  open d use {log, push, log_push, headers_sent, data_sent}

  push_response : api.Conn → ℕ × Bytes → api.Conn
  push_response c (id, body) =
      push
        (push (push c (headers_frame (response_headers api) id false)) (data_frame body id false))
        (headers_frame (trailers api) id true)

  log-push_response :
      (c : api.Conn) (r : ℕ × Bytes) → log (push_response c r) ≡ log c ++ response_frames api r
  unfolding push_response
  log-push_response c (id, body) = simp (log_push, append_assoc)

  prepare-cons :
      (c : api.Conn) (id : ℕ) (body : Bytes) (rest : List (ℕ × Bytes))
      → prepare_responses api c ((id, body) ∷ rest)
        ≡ prepare_responses api (push_response c (id, body)) rest
  unfolding prepare_responses push_response
  prepare-cons c id body rest = simp (headers_sent, data_sent)

  -- The connection that has been given all these responses.
  pub push_all : api.Conn → List (ℕ × Bytes) → api.Conn
  push_all c [] = c
  push_all c (r ∷ rest) = push_all (push_response c r) rest

  prepare_responses-push_all :
      (c : api.Conn) (responses : List (ℕ × Bytes))
      → prepare_responses api c responses ≡ returns (ok (push_all c responses))
  unfolding push_all
  prepare_responses-push_all c [] = unfold prepare_responses in refl
  prepare_responses-push_all c ((id, body) ∷ rest) =
      prepare-cons c id body rest ∙ prepare_responses-push_all (push_response c (id, body)) rest

  -- The responses go out in their order, each as headers, data and trailers behind one another, and
  -- nothing else goes out.
  pub log-push_all :
      (c : api.Conn) (responses : List (ℕ × Bytes))
      → log (push_all c responses) ≡ log c ++ all_frames api responses
  unfolding push_all
  log-push_all c [] = sym (append-nil (log c))
  log-push_all c (r ∷ rest) =
      log-push_all (push_response c r) rest
      ∙ ap (λ (t : List (Frame http)). t ++ all_frames api rest) (log-push_response c r)
      ∙ append_assoc (log c) (response_frames api r) (all_frames api rest)

  -- What sending leaves alone stays.
  pub view-push_all {ℓ} :
      {X : Type ℓ} (view : api.Conn → X)
      → ((c : api.Conn) (f : Frame http) → view (push c f) ≡ view c)
      → (c : api.Conn) (responses : List (ℕ × Bytes)) → view (push_all c responses) ≡ view c
  unfolding push_all push_response
  view-push_all view kept c [] = refl
  view-push_all view kept c ((id, body) ∷ rest) =
      view-push_all view kept (push_response c (id, body)) rest ∙ kept _ _ ∙ kept _ _ ∙ kept _ _

  -- One round on a connection that delivers, when the session then has no data of its own to send.
  pub handle_next-push_all :
      (fuel : ℕ) (self : GrpcServerConnection api) (c : api.Conn) (state : api.Sessions)
      → 0 < fuel
      → api.read_frame self.factory self.conn self.state ≡ returns (ok (c, state))
      → ((c' : api.Conn) → api.send_next_data c' state ≡ ok (nothing, c', state))
      → handle_next api fuel self
        ≡ returns (
            ok (record self {
              conn = push_all c (handle_requests api (record self { state = state }));
              state = reap_streams api state;
            }))
  handle_next-push_all zero self c state f read quiet = absurd (omega arith)
  handle_next-push_all (suc fuel) self c state f read quiet =
      let responses = handle_requests api (record self { state = state }) in
      unfold handle_next handle_requests flush_streams in
      rw read (
        unfold handle_requests in
        rw (prepare_responses-push_all c responses) (rw (quiet (push_all c responses))))
