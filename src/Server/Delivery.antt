-- ===== src/Server/Delivery.antt =====
-- A whole request on a connection of src/server.rs: as many rounds of the loop as it has DATA frames.
use grpc_rust.Prelude.{
  ℕ, ◌<◌, ◌≡◌, ◌≢◌, ◌∙◌, refl, ap, sym, none, List, [], ◌∷◌, ◌++◌, map, concat, Bytes, All, length,
  drop, append_assoc, arith,
}
use grpc_rust.Outcome.{returns, bind-eq-returns, returns-injective}
use grpc_rust.Grpc.{parse_frame}
use grpc_rust.Grpc.RoundTrip.{wire}
use grpc_rust.Grpc.Word.{Endian}
use grpc_rust.Method.{ServerServiceDefinition, handle_method}
use grpc_rust.Solicit.{Solicit, ok}
use grpc_rust.Server.Stream.{GrpcStream, new_data_chunk}
use grpc_rust.Server.Chunks.{feed}
use grpc_rust.Server.Replies.{wires, Fits, replies, answered, feed-replies}
use grpc_rust.Server.Connection.{ServerHttp, GrpcServerConnection, due, run}
use grpc_rust.Server.Responses.{run-suc, Frame, Delivers, response_frames, all_frames}
use grpc_rust.Server.Serving.{IsOpen, Receives, Hosts, serve_round, chunk-IsOpen}

-- The reply to a message is never empty, since it is framed.
replies-cons :
    (services : ServerServiceDefinition) (path m : Bytes) (ms : List Bytes) (out : Bytes)
    → replies services path (m ∷ ms) ≡ returns out
    → (rest : Bytes) × (out ≡ 0 ∷ rest)
unfolding replies
replies-cons services path m ms out h =
    let (reply, _, h') = bind-eq-returns (handle_method services path m) _ h in
    let (rest, _, e) = bind-eq-returns (replies services path ms) _ h' in
    (drop 1 (wire reply ++ rest), returns-injective (sym e))

module _ {http : Solicit} (api : ServerHttp http) where
  due-append : (xs ys : List (ℕ × GrpcStream http)) → due api (xs ++ ys) ≡ due api xs ++ due api ys
  unfolding due
  due-append [] ys = refl
  due-append ((n, s) ∷ xs) ys = ground (arith, due-append xs ys)

  all_frames-append :
      (xs ys : List (ℕ × Bytes))
      → all_frames api (xs ++ ys) ≡ all_frames api xs ++ all_frames api ys
  all_frames-append [] ys = refl
  all_frames-append (x ∷ xs) ys =
      ap (λ (t : List (Frame http)). response_frames api x ++ t) (all_frames-append xs ys)
      ∙ sym (append_assoc (response_frames api x) (all_frames api xs) (all_frames api ys))

  due-cons :
      (id b : ℕ) (bs : Bytes) (s : GrpcStream http) (back : List (ℕ × GrpcStream http))
      → s.resp_buf ≡ b ∷ bs
      → due api ((id, s) ∷ back) ≡ (id, s.resp_buf) ∷ due api back
  unfolding due
  due-cons id b bs s back e = ground arith

  -- A stream with something to say has its response among those that are sent.
  pub response_among :
      (front back : List (ℕ × GrpcStream http)) (id b : ℕ) (bs : Bytes) (s : GrpcStream http)
      → s.resp_buf ≡ b ∷ bs
      → all_frames api (due api (front ++ (id, s) ∷ back))
        ≡ all_frames api (due api front)
          ++ (response_frames api (id, s.resp_buf) ++ all_frames api (due api back))
  response_among front back id b bs s e =
      ap (all_frames api) (due-append front ((id, s) ∷ back))
      ∙ all_frames-append (due api front) (due api ((id, s) ∷ back))
      ∙ ap (λ (t : List (ℕ × Bytes)). all_frames api (due api front) ++ all_frames api t)
          (due-cons id b bs s back e)

nonempty_append :
    (xs ys rest : Bytes) → ys ≡ 0 ∷ rest → (b : ℕ) × (bs : Bytes) × (xs ++ ys ≡ b ∷ bs)
nonempty_append [] ys rest e = (0, rest, e)
nonempty_append (x ∷ xs) ys rest e = (x, xs ++ ys, refl)

module _ {http : Solicit} {api : ServerHttp http} {d : Delivers api} {endian : Endian}
    (r : Receives d endian) (service : ServerServiceDefinition) (id : ℕ)
    (front back : List (ℕ × GrpcStream http)) (first : All (λ e. e.0 ≢ id) front) where
  -- The DATA frames of the stream that have these chunks, then others.
  abbrev pub data_frames : List Bytes → List (ℕ × Bytes) → List (ℕ × Bytes)
  data_frames chunks later = map (λ (c : Bytes). (id, c)) chunks ++ later

  -- What a run leaves: the stream, the frames that are still to come, and the responses that are due
  -- behind whatever has been sent.
  pub record Served (fuel rounds : ℕ) (self : GrpcServerConnection api) (s : GrpcStream http)
      (later : List (ℕ × Bytes)) : Type 0 where
    pub self' : GrpcServerConnection api
    pub before : List (Frame http)
    pub ran : run api rounds fuel self ≡ returns (ok self')
    pub hosts : Hosts r service id front back first self' s later
    pub sent : d.log self'.conn ≡ before ++ all_frames api (due api (front ++ (id, s) ∷ back))

  serve_chunks :
      (fuel : ℕ) (self : GrpcServerConnection api) (chunk : Bytes) (chunks : List Bytes)
      (later : List (ℕ × Bytes)) (s s' : GrpcStream http)
      → 0 < fuel
      → Hosts r service id front back first self s (data_frames (chunk ∷ chunks) later)
      → feed endian (chunk ∷ chunks) s ≡ returns s'
      → All IsOpen (front ++ (id, s) ∷ back)
      → Served fuel (length (chunk ∷ chunks)) self s' later
  unfolding feed
  serve_chunks fuel self chunk [] later s s' h hosts fed open_streams =
      let (s1, taken, rest) =
        bind-eq-returns (new_data_chunk endian chunk s) (feed endian []) fed in
      let (self1, ran, hosts1, sent) =
        serve_round r service id front back first fuel self chunk later s s' h hosts (taken ∙ rest)
          open_streams in
      record {
        self' = self1;
        before = d.log self.conn;
        ran = run-suc api 0 fuel self self1 ran ∙ unfold run in refl;
        hosts = hosts1;
        sent = sent;
      }
  serve_chunks fuel self chunk (c ∷ chunks) later s s' h hosts fed open_streams =
      let (s1, taken, rest) =
        bind-eq-returns (new_data_chunk endian chunk s) (feed endian (c ∷ chunks)) fed in
      let (self1, ran, hosts1, _) =
        serve_round r service id front back first fuel self chunk (data_frames (c ∷ chunks) later) s
          s1 h hosts taken open_streams in
      let served =
        serve_chunks fuel self1 c chunks later s1 s' h hosts1 rest
          (chunk-IsOpen r service id front back first chunk s s1 taken open_streams) in
      record {
        self' = served.self';
        before = served.before;
        ran = run-suc api (length (c ∷ chunks)) fuel self self1 ran ∙ served.ran;
        hosts = served.hosts;
        sent = served.sent;
      }

  -- The DATA frames of a request of whole messages and an incomplete rest, cut in any way, come in on a
  -- connection that delivers, whose streams are open and whose handlers answer. Then the loop runs as
  -- many rounds as there are frames, without an error, and in these it has sent the response of the
  -- stream with the replies to all messages; the stream keeps the rest, and the other streams stay.
  pub run_serves :
      (fuel : ℕ) (self : GrpcServerConnection api) (chunk : Bytes) (chunks : List Bytes)
      (later : List (ℕ × Bytes)) (s : GrpcStream http) (m : Bytes) (ms : List Bytes)
      (tail out : Bytes)
      → 0 < fuel
      → Hosts r service id front back first self s (data_frames (chunk ∷ chunks) later)
      → All IsOpen (front ++ (id, s) ∷ back)
      → s.req_buf ≡ []
      → concat (chunk ∷ chunks) ≡ wires (m ∷ ms) ++ tail
      → All Fits (m ∷ ms)
      → parse_frame endian tail ≡ returns none
      → replies s.service_definition s.path (m ∷ ms) ≡ returns out
      → (self' : GrpcServerConnection api) × (before after : List (Frame http)) × (run api
            (length (chunk ∷ chunks))
            fuel
            self
          ≡ returns (ok self'))
        × Hosts r service id front back first self' (answered s tail out) later
        × (d.log self'.conn ≡ before ++ (response_frames api (id, s.resp_buf ++ out) ++ after))
  run_serves fuel self chunk chunks later s m ms tail out h hosts open_streams idle body fits
        incomplete answers =
      let fed =
        feed-replies endian chunk chunks (m ∷ ms) tail s idle body fits incomplete
        ∙ rw answers refl in
      let served =
        serve_chunks fuel self chunk chunks later s (answered s tail out) h hosts fed
          open_streams in
      let (rest, there) = replies-cons s.service_definition s.path m ms out answers in
      let (b, bs, some_there) = nonempty_append s.resp_buf out rest there in
      (
        served.self',
        served.before ++ all_frames api (due api front),
        all_frames api (due api back),
        served.ran,
        served.hosts,
        served.sent
            ∙ ap (λ (t : List (Frame http)). served.before ++ t)
                (response_among api front back id b bs (answered s tail out) some_there)
            ∙ sym (append_assoc served.before (all_frames api (due api front)) _),
      )
