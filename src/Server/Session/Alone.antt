-- ===== src/Server/Session/Alone.antt =====
-- The streams of a connection of src/server.rs among frames of other streams, in any interleaving.
use grpc_rust.Prelude.{
  ◌==◌, Bool-cases, inl, inr, subst, arith, false, filter-true, ℕ, ◌<◌, ◌≡◌, ◌∙◌, refl, ap, sym,
  Option, List, [], ◌∷◌, ◌++◌, length, filter,
}
use grpc_rust.Outcome.{returns, bind-eq-returns}
use grpc_rust.Grpc.Word.{Endian}
use grpc_rust.Method.{ServerServiceDefinition}
use grpc_rust.Solicit.{Solicit, ok, then-eq-ok, returned_ok}
use grpc_rust.Server.Stream.{GrpcStream}
use grpc_rust.Server.Connection.{ServerHttp, GrpcServerConnection, handle_next, run}
use grpc_rust.Server.Responses.{run-suc, Frame, Delivers, answers}
use grpc_rust.Server.Session.{Incoming, concerns, own, still_open, life, Dispatches}
use grpc_rust.Server.Session.Rounds.{takes, lives, Takes, Waits, round, read-Takes}
use mathlib.Core.Logic.{◌↔◌}

module _ {http : Solicit} {api : ServerHttp http} {d : Delivers api} {endian : Endian}
    (r : Dispatches d endian) (service : ServerServiceDefinition) where
  open r use {transitions, incoming, received, stream_of, put}

  -- What some rounds leave. The last of them has answered every stream that then had something in
  -- its response buffer, and has dropped the closed streams.
  pub record Ran (rounds fuel : ℕ) (self : GrpcServerConnection api) (frames : List (Incoming http))
      : Type 0 where
    pub self' : GrpcServerConnection api
    pub ran : run api rounds fuel self ≡ returns (ok self')
    pub waits : Waits r service self' []
    pub alone :
        (id : ℕ)
        → lives r service id (own id frames) (stream_of self.state id)
          ≡ returns (stream_of self'.state id)
    pub before : List (Frame http)
    pub last : api.Sessions
    pub sent : d.log self'.conn ≡ before ++ answers api (api.iter last)
    pub dropped : (id : ℕ) → stream_of self'.state id ≡ still_open (stream_of last id)

  -- A stream does not panic on what it is handed.
  abbrev pub Survives : GrpcServerConnection api → List (Incoming http) → ℕ → Type 0
  Survives self frames id =
      (o : Option (GrpcStream http)) × (lives r service id (own id frames) (stream_of self.state id)
        ≡ returns o)

  abbrev pub Returns : GrpcServerConnection api → List (Incoming http) → Type 0
  Returns self frames = (id : ℕ) → Survives self frames id

  pub Survives-others :
      (n : ℕ) (self : GrpcServerConnection api) (frames : List (Incoming http))
      → Survives self frames n
      → ((id : ℕ) → n == id ≡ false → Survives self frames id)
      → Returns self frames
  Survives-others n self frames one others id = elim (Bool-cases (n == id)) [
    | inl e ↦ let same : n ≡ id = ground arith in subst (Survives self frames) same one
    | inr e ↦ others id e
  ]

  Takes-first :
      (self : GrpcServerConnection api) (f : Incoming http) (rest : List (Incoming http))
      → Returns self (f ∷ rest)
      → Takes r service self f
  unfolding life
  Takes-first self f rest fine id e =
      let (o, whole) = fine id in
      let h = rw (filter-true (concerns id) f rest e) at whole in
      let (o', made, _) =
        bind-eq-returns (takes r service id f (stream_of self.state id))
          (λ o'. lives r service id (own id rest) (still_open o')) h in
      (o', made)

  -- Frames of any streams come in on a connection that waits for them, at least one and in any
  -- interleaving, and no stream panics on its own ones. Then the loop runs as many rounds as there are
  -- frames without an error. It leaves every stream as it would be alone on the connection, with its own
  -- frames only, and the last round has
  -- answered every stream that then had something in its response buffer.
  pub run_alone :
      (fuel : ℕ) (self : GrpcServerConnection api) (f : Incoming http)
      (frames : List (Incoming http))
      → 0 < fuel
      → Waits r service self (f ∷ frames)
      → Returns self (f ∷ frames)
      → Ran (length (f ∷ frames)) fuel self (f ∷ frames)
  run_alone fuel self f [] h waits fine =
      let (self1, ran, waits1, alone, before, last, sent, dropped) =
        round r service fuel self f [] h waits (Takes-first self f [] fine) in
      record {
        self' = self1;
        ran = run-suc api 0 fuel self self1 ran ∙ unfold run in refl;
        waits = waits1;
        alone = λ id. alone id ∙ unfold filter life in refl;
        before = before;
        last = last;
        sent = sent;
        dropped = dropped;
      }
  run_alone fuel self f (g ∷ frames) h waits fine =
      let (self1, ran, waits1, alone, _, _, _, _) =
        round r service fuel self f (g ∷ frames) h waits (Takes-first self f (g ∷ frames) fine) in
      let rest =
        run_alone fuel self1 g frames h waits1
          (λ id. ((fine id).0, sym (alone id) ∙ (fine id).1)) in
      record {
        self' = rest.self';
        ran = run-suc api (length (g ∷ frames)) fuel self self1 ran ∙ rest.ran;
        waits = rest.waits;
        alone = λ id. alone id ∙ rest.alone id;
        before = rest.before;
        last = rest.last;
        sent = rest.sent;
        dropped = rest.dropped;
      }

  run_returned :
      (fuel : ℕ) (self self' : GrpcServerConnection api) (frames : List (Incoming http))
      → 0 < fuel
      → Waits r service self frames
      → run api (length frames) fuel self ≡ returns (ok self')
      → Returns self frames
  unfolding run
  run_returned fuel self self' [] h waits ran id =
      (stream_of self.state id, unfold filter life in refl)
  run_returned fuel self self' (f ∷ frames) h waits ran id =
      then-eq-ok (handle_next api fuel self) _ ran λ self1 first rest.
        let (self2, again, waits2, alone, _, _, _, _) =
          round r service fuel self f frames h waits
            (read-Takes r service fuel self self1 f frames waits first) in
        let same : self1 ≡ self2 = returned_ok (sym first ∙ again) in
        let (o, e) =
          run_returned fuel self2 self' frames h waits2
            (ap (run api (length frames) fuel) (sym same) ∙ rest) id in
        (o, alone id ∙ e)

  -- On a connection that waits for these frames, the loop goes through them without an error exactly when
  -- no stream panics that is alone on the connection with its own ones.
  pub run_returns :
      (fuel : ℕ) (self : GrpcServerConnection api) (frames : List (Incoming http))
      → 0 < fuel
      → Waits r service self frames
      → ((self' : GrpcServerConnection api) × (run api (length frames) fuel self
            ≡ returns (ok self')))
        ↔ Returns self frames
  run_returns fuel self [] h waits = (
    λ (self', ran). run_returned fuel self self' [] h waits ran,
    λ fine. (self, unfold run in refl),
  )
  run_returns fuel self (f ∷ frames) h waits = (
    λ (self', ran). run_returned fuel self self' (f ∷ frames) h waits ran,
    λ fine. let all = run_alone fuel self f frames h waits fine in (all.self', all.ran),
  )
