-- ===== src/Server/Threads.antt =====
-- The threads of a `GrpcServer` (src/server.rs) in any interleaving, against each client's connection
-- on its own.
use mathlib.Core.List.{map-append}
use grpc_rust.Prelude.{
  ℕ, zero, suc, ◌≡◌, ◌∙◌, refl, ap, sym, fun_ext, some, List, [], ◌∷◌, ◌++◌, map, Bytes,
}
use grpc_rust.Outcome.{Outcome, returns, panics, stuck, returns-injective}
use grpc_rust.Method.{ServerServiceDefinition}
use grpc_rust.Solicit.{Solicit, ok, failed, Io, ◌>>=◌}
use grpc_rust.Server.Connection.{ServerHttp, GrpcServerConnection, connect, handle_next, run}
use grpc_rust.Server.Accept.{
  Thread, spawned, panicked, blocked, started, round_done, thread_step, accept, update_at,
}

bind_ok {ℓ} : {E : Type 0} {A : Type ℓ} (m : Io E A) → (m >>= λ a. returns (ok a)) ≡ m
bind_ok (returns (ok a)) = refl
bind_ok (returns (failed e)) = refl
bind_ok (panics p) = refl
bind_ok stuck = refl

bind_assoc {ℓ κ μ} :
    {E : Type 0} {A : Type ℓ} {B : Type κ} {C : Type μ} (m : Io E A) (f : A → Io E B)
    (g : B → Io E C)
    → (m >>= f >>= g) ≡ (m >>= λ a. f a >>= g)
bind_assoc (returns (ok a)) f g = refl
bind_assoc (returns (failed e)) f g = refl
bind_assoc (panics p) f g = refl
bind_assoc stuck f g = refl

pub map-update_at {ℓ κ} :
    {A : Type ℓ} {B : Type κ} (h : A → B) (f : A → A) (g : B → B)
    → ((a : A) → h (f a) ≡ g (h a))
    → (i : ℕ) (xs : List A) → map h (update_at i f xs) ≡ update_at i g (map h xs)
map-update_at h f g e i [] = refl
map-update_at h f g e zero (x ∷ xs) = ap (λ y. y ∷ map h xs) (e x)
map-update_at h f g e (suc i) (x ∷ xs) = ap (λ ys. h x ∷ ys) (map-update_at h f g e i xs)

-- A client that has had a turn more.
abbrev pub once_more : Bytes × ℕ → Bytes × ℕ
once_more (stream, n) = (stream, suc n)

module _ {http : Solicit} (api : ServerHttp http) (attach : api.Conn → Bytes → api.Conn) (fuel : ℕ)
    (service : ServerServiceDefinition) where
  -- What may happen next: a client is accepted, or one of the threads makes a step.
  pub data ServerStep (threads threads' : List (Thread api attach)) : Type 0 where
    accepts :
        (stream : Bytes)
        → accept api attach (record { service_definition = service }) (some stream) threads
          ≡ returns threads'
        → ServerStep threads threads'
    steps :
        (i : ℕ)
        → threads' ≡ update_at i (thread_step api attach fuel service) threads
        → ServerStep threads threads'

  pub data Reach (threads : List (Thread api attach)) : List (Thread api attach) → Type 0 where
    here : Reach threads threads
    next : {t u : List (Thread api attach)} → Reach threads t → ServerStep t u → Reach threads u

  -- The rounds of `run` after a connect, on their own.
  abbrev pub ran : ℕ → Outcome (GrpcServerConnection api × Bytes) → Thread api attach
  ran n (returns (self, rest)) =
      round_done api attach (run api n fuel (record self { conn = attach self.conn rest }))
  ran n (panics p) = panicked p
  ran n stuck = blocked

  -- The thread of a client after so many steps of its own: its connect, then rounds of `run`.
  abbrev pub alone : Bytes × ℕ → Thread api attach
  alone (stream, zero) = spawned stream
  alone (stream, suc n) = ran n (connect api stream service)

  run_more :
      (n : ℕ) (self : GrpcServerConnection api)
      → run api (suc n) fuel self ≡ (run api n fuel self >>= handle_next api fuel)
  unfolding run
  run_more zero self = bind_ok (handle_next api fuel self)
  run_more (suc n) self =
      ap (λ k. handle_next api fuel self >>= k) (fun_ext (run_more n))
      ∙ sym (bind_assoc (handle_next api fuel self) (run api n fuel) (handle_next api fuel))

  step-round_done :
      (m : Io http.HttpError (GrpcServerConnection api))
      → thread_step api attach fuel service (round_done api attach m)
        ≡ round_done api attach (m >>= handle_next api fuel)
  unfolding thread_step
  step-round_done (returns (ok self)) = refl
  step-round_done (returns (failed e)) = refl
  step-round_done (panics p) = refl
  step-round_done stuck = refl

  step-ran :
      (n : ℕ) (o : Outcome (GrpcServerConnection api × Bytes))
      → ran (suc n) o ≡ thread_step api attach fuel service (ran n o)
  step-ran n (returns (self, rest)) =
      ap (round_done api attach) (run_more n (record self { conn = attach self.conn rest }))
      ∙ sym (step-round_done (run api n fuel (record self { conn = attach self.conn rest })))
  step-ran n (panics p) = unfold thread_step in refl
  step-ran n stuck = unfold thread_step in refl

  started-ran : (o : Outcome (GrpcServerConnection api × Bytes)) → ran 0 o ≡ started api attach o
  unfolding run
  started-ran (returns (self, rest)) = refl
  started-ran (panics p) = refl
  started-ran stuck = refl

  pub step-alone :
      (a : Bytes × ℕ) → alone (once_more a) ≡ thread_step api attach fuel service (alone a)
  step-alone (stream, zero) = unfold thread_step in started-ran (connect api stream service)
  step-alone (stream, suc n) = step-ran n (connect api stream service)

  -- The clients in the order of their accepts, each with the number of its thread's steps.
  abbrev pub clients : {threads : List (Thread api attach)} → Reach [] threads → List (Bytes × ℕ)
  clients here = []
  clients (next r (accepts stream e)) = clients r ++ (stream, 0) ∷ []
  clients (next r (steps i e)) = update_at i once_more (clients r)

  -- However a server accepts clients and its threads take their steps: it has one thread for each
  -- client, in the order of the accepts, and each is where its client's connection is on its own after
  -- as many steps, a connect and then rounds of `run`.
  pub Reach-alone :
      {threads : List (Thread api attach)}
      → (r : Reach [] threads) → threads ≡ map alone (clients r)
  unfolding accept
  Reach-alone here = refl
  Reach-alone (next r (accepts stream e)) =
      sym (returns-injective e)
      ∙ ap (λ ts. ts ++ spawned stream ∷ []) (Reach-alone r)
      ∙ sym (map-append alone (clients r) ((stream, 0) ∷ []))
  Reach-alone (next r (steps i e)) =
      e
      ∙ ap (update_at i (thread_step api attach fuel service)) (Reach-alone r)
      ∙ sym (
          map-update_at alone once_more (thread_step api attach fuel service) step-alone i
            (clients r))
