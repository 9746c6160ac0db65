-- ===== src/Tests/Multiplexing.antt =====
-- A connection that serves two calls at once.
use grpc_rust.Prelude.{
  ℕ, ◌≡◌, refl, ap, ◌∙◌, true, Option, none, some, List, [], ◌∷◌, ◌++◌, arith, ◌==◌, if◌then◌else◌,
  Bool-cases, inl, inr, some-injective,
}
use grpc_rust.Outcome.{returns, ◌>>=◌}
use grpc_rust.Grpc.Word.{little}
use grpc_rust.Solicit.{ok, failed, Io}
use grpc_rust.Server.Stream.{GrpcStream, GrpcStreamFactory}
use grpc_rust.Server.Connection.{nothing, ServerHttp, reap_streams}
use grpc_rust.Server.Responses.{Frame, headers_frame, data_frame, Delivers}
use grpc_rust.Server.Session.{
  Incoming, headers_in, data_in, reset_in, other_in, Transitions, concerns, still_open, handed,
  Dispatches,
}
use grpc_rust.Tests.Fixtures.{toy_http}

pub record Wire : Type 0 where
  pub sent : List (Frame toy_http)
  pub waiting : List (Incoming toy_http)

abbrev pub Sessions : Type 0
Sessions = List (ℕ × GrpcStream toy_http)

unfoldable pub find : Sessions → ℕ → Option (GrpcStream toy_http)
find [] id = none
find ((n, s) ∷ rest) id = if n == id then some s else find rest id

unfoldable pub remove : ℕ → Sessions → Sessions
remove id [] = []
remove id ((n, s) ∷ rest) = let rest' = remove id rest in if n == id then rest' else (n, s) ∷ rest'

abbrev pub put : Sessions → ℕ → Option (GrpcStream toy_http) → Sessions
put state id none = remove id state
put state id (some s) = (id, s) ∷ state

unfoldable pub reap : Sessions → Sessions
unfolding remove
reap [] = []
reap ((n, s) ∷ rest) =
    let rest' = reap rest in if toy_http.is_closed s.state then remove n rest' else (n, s) ∷ rest'

abbrev pub toy_transitions : Transitions toy_http
toy_transitions = record { close_remote = λ s. if s == 1 then 3 else 2; closed_state = 3 }

abbrev pub push : Wire → Frame toy_http → Wire
push c f = record c { sent = c.sent ++ f ∷ [] }

unfoldable pub tail_of : List (Incoming toy_http) → List (Incoming toy_http)
tail_of [] = []
tail_of (f ∷ rest) = rest

abbrev pub received : Wire → Wire
received c = record c { waiting = tail_of c.waiting }

-- The number of a frame's stream.
unfoldable pub number : Incoming toy_http → Option ℕ
number (headers_in n hs end) = some n
number (data_in n chunk end) = some n
number (reset_in n) = some n
number other_in = none

unfoldable pub read :
    List (Incoming toy_http) → GrpcStreamFactory → Wire → Sessions → Io ℕ (Wire × Sessions)
unfolding find remove number
read [] service c state = returns (failed 9)
read (f ∷ rest) service c state = elim (number f) [
  | none ↦ returns (ok (received c, state))
  | some id ↦ handed toy_transitions little service id f (find state id) >>= λ o.
      returns (ok (received c, put state id o))
]

abbrev pub multiplexing : ServerHttp toy_http
multiplexing = record {
  Conn = Wire;
  Sessions = Sessions;
  iter = λ s. s;
  get_closed = λ s. ([], reap s);
  send_headers = λ c h id end. ok (push c (headers_frame h id end));
  send_data = λ c b id end. ok (push c (data_frame b id end));
  send_next_data = λ c s. ok (nothing, c, s);
  read_frame = λ service c s. read c.waiting service c s;
  new_conn = λ stream. some (record { sent = []; waiting = [] });
  new_sessions = [];
}

abbrev pub delivers : Delivers multiplexing
delivers = record {
  log = λ c. c.sent;
  push = push;
  log_push = λ c f. refl;
  headers_sent = λ c h id end. refl;
  data_sent = λ c b id end. refl;
}

pub find-remove :
    (state : Sessions) (id n : ℕ)
    → find (remove id state) n ≡ (if id == n then none else find state n)
unfolding find remove
find-remove [] id n = ground arith
find-remove ((m, s) ∷ rest) id n = ground (arith, find-remove rest id n)

pub find-put :
    (state : Sessions) (id n : ℕ) (o : Option (GrpcStream toy_http))
    → find (put state id o) n ≡ (if id == n then o else find state n)
find-put state id n none = find-remove state id n
find-put state id n (some s) = unfold find in refl

pub find-reap : (state : Sessions) (id : ℕ) → find (reap state) id ≡ still_open (find state id)
unfolding find reap
find-reap [] id = refl
find-reap ((n, s) ∷ rest) id = elim (Bool-cases (toy_http.is_closed s.state)) [
  | inl c ↦ elim (Bool-cases (n == id)) [
    | inl e ↦ rw (c, find-remove (reap rest) n id, e) (rw c refl)
    | inr e ↦ rw (c, find-remove (reap rest) n id, e) (find-reap rest id)
  ]
  | inr c ↦ elim (Bool-cases (n == id)) [
    | inl e ↦ rw (c, e) (rw c refl)
    | inr e ↦ rw (c, e) (find-reap rest id)
  ]
]

pub find-split :
    (state : Sessions) (id : ℕ) (s : GrpcStream toy_http)
    → find state id ≡ some s
    → (front back : Sessions) × (state ≡ front ++ (id, s) ∷ back)
unfolding find
find-split [] id s h = cc
find-split ((n, t) ∷ rest) id s h = elim (Bool-cases (n == id)) [
  | inl e ↦
      let same : n ≡ id = ground arith in
      let found : t ≡ s = some-injective (rw e at h) in ([], rest, λ i. (same i, found i) ∷ rest)
  | inr e ↦
      let (front, back, there) = find-split rest id s (rw e at h) in
      ((n, t) ∷ front, back, ap (λ (es : Sessions). (n, t) ∷ es) there)
]

pub read_own_lem :
    (service : GrpcStreamFactory) (c : Wire) (state : Sessions) (id : ℕ) (f : Incoming toy_http)
    (rest : List (Incoming toy_http))
    → concerns id f ≡ true
    → read (f ∷ rest) service c state ≡ (
        handed toy_transitions little service id f (find state id) >>= λ o.
        returns (ok (received c, put state id o)))
unfolding read
read_own_lem service c state id (headers_in n hs end) rest h =
    let e : n ≡ id = ground arith in rw e refl
read_own_lem service c state id (data_in n chunk end) rest h =
    let e : n ≡ id = ground arith in rw e refl
read_own_lem service c state id (reset_in n) rest h = let e : n ≡ id = ground arith in rw e refl
read_own_lem service c state id other_in rest h = cc

unfoldable pub dispatches : Dispatches delivers little
unfolding reap_streams tail_of find read remove reap
dispatches = record {
  transitions = toy_transitions;
  incoming = λ c. c.waiting;
  received = received;
  stream_of = find;
  put = put;
  incoming_push = λ c f. refl;
  incoming_received = λ c f rest e. rw e refl;
  stream_of_new = λ id. refl;
  stream_of_put = find-put;
  iter_stream_of = find-split;
  read_other = λ service c state rest w. ap (λ fs. read fs service c state) w ∙ refl;
  read_own = λ service c state id f rest w h.
      ap (λ fs. read fs service c state) w ∙ read_own_lem service c state id f rest h;
  quiet = λ c state none_queued. refl;
  reaped = find-reap;
}
