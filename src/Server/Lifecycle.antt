-- ===== src/Server/Lifecycle.antt =====
-- A stream of src/server.rs under every sequence of the calls that the HTTP/2 session makes.
use grpc_rust.Prelude.{
  ℕ, zero, suc, ◌≡◌, ◌∙◌, refl, sym, subst, inl, inr, none, some, List, [], ◌++◌, map,
  if◌then◌else◌, Bytes, length, arith,
}
use grpc_rust.Outcome.{Panic, returns, panics, ◌>>=◌, bind-eq-returns, returns-injective}
use grpc_rust.Grpc.{parse_frame}
use grpc_rust.Grpc.Word.{Endian}
use grpc_rust.Grpc.Parse.{parse_frame_cases}
use grpc_rust.Method.{ServerServiceDefinition, handle_method}
use grpc_rust.Solicit.{Solicit}
use grpc_rust.Server.Stream.{
  GrpcStream, ok, closed, unavailable, with_id, extend, replied, process_loop, process_buf,
  set_headers, new_data_chunk, set_state, get_data_chunk, read_path,
}

module _ {http : Solicit} (endian : Endian) where
  -- A call that returns; a call that panics ends the thread and the stream with it.
  pub data StreamStep (s s' : GrpcStream http) : Type 0 where
    headers_set :
        (headers : List http.Header) → set_headers headers s ≡ returns s' → StreamStep s s'
    chunk_received : (chunk : Bytes) → new_data_chunk endian chunk s ≡ returns s' → StreamStep s s'
    state_set : (state : http.StreamState) → set_state state s ≡ s' → StreamStep s s'
    chunk_taken : (size : ℕ) → (get_data_chunk size s).1 ≡ s' → StreamStep s s'

  pub data Reach (s : GrpcStream http) : GrpcStream http → Type 0 where
    here : Reach s s
    next : {t u : GrpcStream http} → Reach s t → StreamStep t u → Reach s u

  -- What is to hold between any two calls: no complete frame waits in the request buffer, nothing was
  -- ever put up for sending through the session, and the stream keeps its identity and service.
  pub record IsServed (id : ℕ) (service : ServerServiceDefinition) (s : GrpcStream http)
      : Type 0 where
    pub no_frame_waits : parse_frame endian s.req_buf ≡ returns none
    pub nothing_queued : s.cursor ≡ none
    pub no_body : s.body ≡ []
    pub identity : s.stream_id ≡ some id
    pub service_kept : s.service_definition ≡ service

  -- The fields that the loop leaves alone, and how it leaves the request buffer.
  pub record Processed (s s' : GrpcStream http) : Type 0 where
    pub drained : parse_frame endian s'.req_buf ≡ returns none
    pub cursor_kept : s'.cursor ≡ s.cursor
    pub body_kept : s'.body ≡ s.body
    pub id_kept : s'.stream_id ≡ s.stream_id
    pub definition_kept : s'.service_definition ≡ s.service_definition
    pub state_kept : s'.state ≡ s.state

  pub loop_none :
      (f : ℕ) (s : GrpcStream http)
      → parse_frame endian s.req_buf ≡ returns none
      → process_loop (suc f) endian s ≡ returns s
  unfolding process_loop
  loop_none f s e = rw e

  pub loop_some :
      (f : ℕ) (s : GrpcStream http) (frame : Bytes) (pos : ℕ)
      → parse_frame endian s.req_buf ≡ returns (some (frame, pos))
      → process_loop (suc f) endian s ≡ (
          handle_method s.service_definition s.path frame >>= λ r.
          process_loop f endian (replied endian s pos r))
  unfolding process_loop
  loop_some f s frame pos e = rw e

  pub loop_panics :
      (f : ℕ) (s s' : GrpcStream http) (p : Panic)
      → parse_frame endian s.req_buf ≡ panics p
      → ¬ (process_loop (suc f) endian s ≡ returns s')
  unfolding process_loop
  loop_panics f s s' p e = rw e (λ h. cc)

  Processed-refl :
      (s s' : GrpcStream http)
      → parse_frame endian s.req_buf ≡ returns none
      → s ≡ s'
      → Processed s s'
  Processed-refl s s' e same = subst (Processed s) same (record {
    drained = e;
    cursor_kept = refl;
    body_kept = refl;
    id_kept = refl;
    definition_kept = refl;
    state_kept = refl;
  })

  process_loop-Processed :
      (f : ℕ) (s s' : GrpcStream http) → process_loop f endian s ≡ returns s' → Processed s s'
  process_loop-Processed zero s s' h = unfold process_loop in cc
  process_loop-Processed (suc f) s s' h = elim (parse_frame_cases endian s.req_buf) [
    | inl e ↦ Processed-refl s s' e (returns-injective (sym (loop_none f s e) ∙ h))
    | inr (inl (frame, pos, e)) ↦
        let (r, _, rest) =
          bind-eq-returns (handle_method s.service_definition s.path frame)
            (λ r. process_loop f endian (replied endian s pos r))
            (sym (loop_some f s frame pos e) ∙ h) in
        let p = process_loop-Processed f (replied endian s pos r) s' rest in
        record {
          drained = p.drained;
          cursor_kept = p.cursor_kept;
          body_kept = p.body_kept;
          id_kept = p.id_kept;
          definition_kept = p.definition_kept;
          state_kept = p.state_kept;
        }
    | inr (inr (p, e)) ↦ absurd (loop_panics f s s' p e h)
  ]

  pub new_data_chunk-Processed :
      (chunk : Bytes) (s s' : GrpcStream http)
      → new_data_chunk endian chunk s ≡ returns s'
      → Processed (extend s chunk) s'
  unfolding new_data_chunk process_buf
  new_data_chunk-Processed chunk s s' h =
      process_loop-Processed (suc (length (s.req_buf ++ chunk))) (extend s chunk) s' h

  module _ (id : ℕ) (service : ServerServiceDefinition) where
    new_data_chunk-IsServed :
        (chunk : Bytes) (s s' : GrpcStream http)
        → new_data_chunk endian chunk s ≡ returns s'
        → IsServed id service s
        → IsServed id service s'
    new_data_chunk-IsServed chunk s s' h v =
        let p = new_data_chunk-Processed chunk s s' h in
        record {
          no_frame_waits = p.drained;
          nothing_queued = p.cursor_kept ∙ v.nothing_queued;
          no_body = p.body_kept ∙ v.no_body;
          identity = p.id_kept ∙ v.identity;
          service_kept = p.definition_kept ∙ v.service_kept;
        }

    set_headers-IsServed :
        (headers : List http.Header) (s s' : GrpcStream http)
        → set_headers headers s ≡ returns s'
        → IsServed id service s
        → IsServed id service s'
    unfolding set_headers
    set_headers-IsServed headers s s' h v =
        let (path, _, e) =
          bind-eq-returns (read_path http headers s.path)
            (λ path. returns (record s { path = path; headers = some (map http.to_owned headers) }))
            h in
        subst (IsServed id service) (returns-injective e) (record {
          no_frame_waits = v.no_frame_waits;
          nothing_queued = v.nothing_queued;
          no_body = v.no_body;
          identity = v.identity;
          service_kept = v.service_kept;
        })

    get_data_chunk-IsServed :
        (size : ℕ) (s : GrpcStream http)
        → IsServed id service s
        → IsServed id service (get_data_chunk size s).1
    unfolding get_data_chunk
    get_data_chunk-IsServed size s v = rw v.nothing_queued (ground arith)

    -- Each call that returns keeps the invariant.
    pub StreamStep-IsServed :
        {s s' : GrpcStream http} → StreamStep s s' → IsServed id service s → IsServed id service s'
    unfolding set_state
    StreamStep-IsServed {s} {s'} (headers_set headers h) v = set_headers-IsServed headers s s' h v
    StreamStep-IsServed {s} {s'} (chunk_received chunk h) v = new_data_chunk-IsServed chunk s s' h v
    StreamStep-IsServed {s} {s'} (state_set state h) v = subst (IsServed id service) h (record {
      no_frame_waits = v.no_frame_waits;
      nothing_queued = v.nothing_queued;
      no_body = v.no_body;
      identity = v.identity;
      service_kept = v.service_kept;
    })
    StreamStep-IsServed {s} {s'} (chunk_taken size h) v =
        subst (IsServed id service) h (get_data_chunk-IsServed size s v)

    with_id-IsServed : IsServed id service (with_id http id service)
    unfolding with_id
    with_id-IsServed = record {
      no_frame_waits = unfold parse_frame in refl;
      nothing_queued = refl;
      no_body = refl;
      identity = refl;
      service_kept = refl;
    }

    -- Whatever the session calls, and in whatever order: on every stream that can come about from a
    -- new one, no complete request frame is left in the request buffer, nothing is queued for the session to
    -- send, and the stream has the identity and the service that it was made with.
    pub Reach-IsServed :
        {s : GrpcStream http} → Reach (with_id http id service) s → IsServed id service s
    Reach-IsServed here = with_id-IsServed
    Reach-IsServed (next r st) = StreamStep-IsServed st (Reach-IsServed r)

    -- Whatever the session calls on a new stream, and in whatever order, it never gets data from it: `get_data_chunk` says `Closed` if the stream
    -- is closed locally, and `Unavailable` if it is not.
    Reach-get_data_chunk :
        {s : GrpcStream http} (size : ℕ)
        → Reach (with_id http id service) s
        → (get_data_chunk size s).0
          ≡ (if http.is_closed_local s.state then closed else ok unavailable)
    unfolding get_data_chunk
    Reach-get_data_chunk {s} size r = rw (Reach-IsServed r).nothing_queued (ground arith)
