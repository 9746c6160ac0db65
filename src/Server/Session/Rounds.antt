-- ===== src/Server/Session/Rounds.antt =====
-- A round of a connection of src/server.rs for every stream of its session.
use grpc_rust.Prelude.{
  ℕ, ◌<◌, ◌≡◌, ◌∙◌, refl, ap, sym, subst, true, false, Option, List, ◌∷◌, ◌++◌, ◌==◌, filter-true,
  filter-false, eqb_refl, Bool-cases, inl, inr, arith,
}
use grpc_rust.Outcome.{Outcome, returns, bind-eq-returns}
use grpc_rust.Grpc.Word.{Endian}
use grpc_rust.Method.{ServerServiceDefinition}
use grpc_rust.Solicit.{Solicit, ok, then-eq-ok}
use grpc_rust.Server.Stream.{GrpcStream}
use grpc_rust.Server.Connection.{
  ServerHttp, GrpcServerConnection, handle_requests, reap_streams, handle_next,
}
use grpc_rust.Server.Responses.{
  Frame, Delivers, answers, all_frames-due, push_all, log-push_all, view-push_all,
  handle_next-push_all,
}
use grpc_rust.Server.Session.{
  Incoming, headers_in, data_in, reset_in, other_in, concerns, own, still_open, handed, life,
  Dispatches,
}
use grpc_rust.Server.Session.Steps.{NoData, still_open_idem, still_open-NoData, handed-NoData}

module _ {http : Solicit} {api : ServerHttp http} {d : Delivers api} {endian : Endian}
    (r : Dispatches d endian) (service : ServerServiceDefinition) where
  open r use {transitions, incoming, received, stream_of, put}

  abbrev pub takes :
      ℕ → Incoming http → Option (GrpcStream http) → Outcome (Option (GrpcStream http))
  takes id f o = handed transitions endian service id f o

  -- A stream with what it is handed, on its own.
  abbrev pub lives :
      ℕ → List (Incoming http) → Option (GrpcStream http) → Outcome (Option (GrpcStream http))
  lives id frames o = life transitions endian service id frames o

  -- A frame that is read is handed to its stream, and the others stay.
  record Reads (f : Incoming http) (state state' : api.Sessions) : Type 0 where
    own_stream :
        (id : ℕ)
        → concerns id f ≡ true
        → takes id f (stream_of state id) ≡ returns (stream_of state' id)
    other_streams : (id : ℕ) → concerns id f ≡ false → stream_of state' id ≡ stream_of state id

  put-Reads :
      (n : ℕ) (f : Incoming http) (state : api.Sessions) (o : Option (GrpcStream http))
      → ((id : ℕ) → concerns id f ≡ (n == id))
      → takes n f (stream_of state n) ≡ returns o
      → Reads f state (put state n o)
  put-Reads n f state o number made = record {
    own_stream = λ id h.
        let same : n ≡ id = let e = sym (number id) ∙ h in ground arith in
        subst (λ m. takes m f (stream_of state m) ≡ returns (stream_of (put state n o) m)) same
          (made ∙ ap returns (sym (r.stream_of_put state n n o ∙ rw (eqb_refl n) refl)));
    other_streams = λ id h. r.stream_of_put state n id o ∙ rw (sym (number id) ∙ h) refl;
  }

  read_lem :
      (f : Incoming http) (rest : List (Incoming http)) (c : api.Conn) (state : api.Sessions)
      → incoming c ≡ f ∷ rest
      → ((id : ℕ)
          → concerns id f ≡ true
          → (o : Option (GrpcStream http)) × (takes id f (stream_of state id) ≡ returns o))
      → (state' : api.Sessions) × (api.read_frame service c state
          ≡ returns (ok (received c, state')))
        × Reads f state state'
  read_lem other_in rest c state w h = (
    state,
    r.read_other service c state rest w,
    record { own_stream = λ id e. cc; other_streams = λ id e. refl },
  )
  read_lem (headers_in n hs end) rest c state w h =
      let (o, made) = h n (eqb_refl n) in
      (
        put state n o,
        r.read_own service c state n (headers_in n hs end) rest w (eqb_refl n) ∙ rw made refl,
        put-Reads n (headers_in n hs end) state o (λ id. refl) made,
      )
  read_lem (data_in n chunk end) rest c state w h =
      let (o, made) = h n (eqb_refl n) in
      (
        put state n o,
        r.read_own service c state n (data_in n chunk end) rest w (eqb_refl n) ∙ rw made refl,
        put-Reads n (data_in n chunk end) state o (λ id. refl) made,
      )
  read_lem (reset_in n) rest c state w h =
      let (o, made) = h n (eqb_refl n) in
      (
        put state n o,
        r.read_own service c state n (reset_in n) rest w (eqb_refl n) ∙ rw made refl,
        put-Reads n (reset_in n) state o (λ id. refl) made,
      )

  -- No stream has data queued, and the closed ones have been dropped.
  pub record IsFine (state : api.Sessions) : Type 0 where
    pub no_data : (id : ℕ) → NoData (stream_of state id)
    pub reaped : (id : ℕ) → still_open (stream_of state id) ≡ stream_of state id

  -- A new session is fine.
  pub new_sessions-IsFine : IsFine api.new_sessions
  new_sessions-IsFine = record {
    no_data = λ id. rw (r.stream_of_new id) tt;
    reaped = λ id. rw (r.stream_of_new id) refl;
  }

  Reads-NoData :
      (f : Incoming http) (state state' : api.Sessions)
      → IsFine state
      → Reads f state state'
      → (id : ℕ) → NoData (stream_of state' id)
  Reads-NoData f state state' fine reads id = elim (Bool-cases (concerns id f)) [
    | inl e ↦
        handed-NoData transitions endian service id f _ _ (reads.own_stream id e) (fine.no_data id)
    | inr e ↦ subst NoData (sym (reads.other_streams id e)) (fine.no_data id)
  ]

  -- One round for a stream: it is handed the frame if it is its own.
  life_step :
      (f : Incoming http) (rest : List (Incoming http)) (state state' : api.Sessions)
      → IsFine state
      → Reads f state state'
      → (id : ℕ)
      → lives id (own id (f ∷ rest)) (stream_of state id)
        ≡ lives id (own id rest) (stream_of (reap_streams api state') id)
  unfolding life
  life_step f rest state state' fine reads id = elim (Bool-cases (concerns id f)) [
    | inl e ↦
        rw (filter-true (concerns id) f rest e, life)
          (rw (reads.own_stream id e) (ap (lives id (own id rest)) (sym (r.reaped state' id))))
    | inr e ↦ rw (filter-false (concerns id) f rest e) (
        ap (lives id (own id rest))
          (sym (r.reaped state' id ∙ ap still_open (reads.other_streams id e) ∙ fine.reaped id)))
  ]

  -- A connection that waits for these frames.
  pub record Waits (self : GrpcServerConnection api) (frames : List (Incoming http)) : Type 0 where
    pub serves : self.factory ≡ service
    pub waiting : incoming self.conn ≡ frames
    pub fine : IsFine self.state

  -- The stream of this frame does not panic on it.
  abbrev pub Takes : GrpcServerConnection api → Incoming http → Type 0
  Takes self f =
      (id : ℕ)
      → concerns id f ≡ true
      → (o : Option (GrpcStream http)) × (takes id f (stream_of self.state id) ≡ returns o)

  pub round :
      (fuel : ℕ) (self : GrpcServerConnection api) (f : Incoming http) (rest : List (Incoming http))
      → 0 < fuel
      → Waits self (f ∷ rest)
      → Takes self f
      → (self' : GrpcServerConnection api) × (handle_next api fuel self ≡ returns (ok self'))
        × Waits self' rest
        × ((id : ℕ)
            → lives id (own id (f ∷ rest)) (stream_of self.state id)
              ≡ lives id (own id rest) (stream_of self'.state id))
        × (before : List (Frame http)) × (last : api.Sessions) × (d.log self'.conn
            ≡ before ++ answers api (api.iter last))
        × ((id : ℕ) → stream_of self'.state id ≡ still_open (stream_of last id))
  unfolding handle_requests
  round fuel self f rest h waits taken =
      let (state', read, reads) = read_lem f rest self.conn self.state waits.waiting taken in
      let quiet = Reads-NoData f self.state state' waits.fine reads in
      let responses = handle_requests api (record self { state = state' }) in
      (
        record self {
          conn = push_all api d (received self.conn) responses;
          state = reap_streams api state';
        },
        handle_next-push_all api d fuel self (received self.conn) state' h
            (ap (λ factory. api.read_frame factory self.conn self.state) waits.serves ∙ read)
            (λ c. r.quiet c state' (λ id s e. subst NoData e (quiet id))),
        record {
          serves = waits.serves;
          waiting =
              view-push_all api d incoming r.incoming_push (received self.conn) responses
              ∙ r.incoming_received self.conn f rest waits.waiting;
          fine = record {
            no_data =
                λ id. subst NoData (sym (r.reaped state' id)) (still_open-NoData _ (quiet id));
            reaped = λ id.
                ap still_open (r.reaped state' id)
                ∙ still_open_idem (stream_of state' id)
                ∙ sym (r.reaped state' id);
          };
        },
        life_step f rest self.state state' waits.fine reads,
        d.log (received self.conn),
        state',
        log-push_all api d (received self.conn) responses
            ∙ ap (λ (t : List (Frame http)). d.log (received self.conn) ++ t)
                (all_frames-due api (api.iter state')),
        r.reaped state',
      )

  -- A round that goes well has not panicked in a stream.
  pub read-Takes :
      (fuel : ℕ) (self self1 : GrpcServerConnection api) (f : Incoming http)
      (rest : List (Incoming http))
      → Waits self (f ∷ rest)
      → handle_next api fuel self ≡ returns (ok self1)
      → Takes self f
  unfolding handle_next
  read-Takes fuel self self1 f rest waits h id e =
      then-eq-ok (api.read_frame self.factory self.conn self.state) _ h λ read done _.
        let (o, made, _) = bind-eq-returns (takes id f (stream_of self.state id)) _ (
          sym (r.read_own service self.conn self.state id f rest waits.waiting e)
          ∙ ap (λ factory. api.read_frame factory self.conn self.state) (sym waits.serves)
          ∙ done) in
        (o, made)
