-- ===== src/Solicit.antt =====
-- What the server and the client use of the HTTP/2 crate `solicit`, which is not in the repository.
use grpc_rust.Prelude.{Bool, Bytes, ◌≡◌, ◌≢◌, refl}
use grpc_rust.Outcome.{Outcome, returns, panics, stuck}

-- `HttpError` with the one error that src/client.rs makes, `StreamState`, the two tests on it and the
-- transition that `Stream::close_local` makes, and the header type with its constructor, its two
-- accessors and its conversion to an owned header.
pub record Solicit : Type 1 where
  pub HttpError : Type 0
  pub unknown_stream_id : HttpError
  pub StreamState : Type 0
  pub open_state : StreamState
  pub is_closed_local : StreamState → Bool
  pub is_closed : StreamState → Bool
  pub close_local : StreamState → StreamState
  pub Header : Type 0
  pub header : Bytes → Bytes → Header
  pub header_name : Header → Bytes
  pub header_value : Header → Bytes
  pub to_owned : Header → Header

-- `HttpResult`, over the error type of `solicit`.
pub data HttpResult {ℓ} (E : Type 0) (A : Type ℓ) : Type ℓ where
  ok : A → HttpResult E A
  failed : E → HttpResult E A

-- A call that may panic, and returns an `HttpResult`.
abbrev pub Io {ℓ} : Type 0 → Type ℓ → Type ℓ
Io E A = Outcome (HttpResult E A)

-- `try!`
infixl 5 ◌>>=◌
abbrev pub ◌>>=◌ {ℓ κ} : {E : Type 0} {A : Type ℓ} {B : Type κ} → Io E A → (A → Io E B) → Io E B
returns (ok a) >>= f = f a
returns (failed e) >>= f = returns (failed e)
panics p >>= f = panics p
stuck >>= f = stuck

module _ {E : Type 0} where
  -- A chain of calls that returns: its first call has returned, and then the rest has.
  pub then-eq-ok {ℓ κ μ} :
      {A : Type ℓ} {B : Type κ} {R : Type μ} (m : Io E A) (f : A → Io E B) {b : B}
      → (m >>= f) ≡ returns (ok b)
      → ((a : A) → m ≡ returns (ok a) → f a ≡ returns (ok b) → R)
      → R
  then-eq-ok (returns (ok a)) f h k = k a refl h
  then-eq-ok (returns (failed e)) f h k = cc
  then-eq-ok (panics p) f h k = cc
  then-eq-ok stuck f h k = cc

  pub returned {ℓ} :
      {A : Type ℓ} {m : HttpResult E A} {a : A} → Outcome.returns m ≡ returns (ok a) → m ≡ ok a
  returned h = cc

  pub failed-ne-ok {ℓ} :
      {A : Type ℓ} {e : E} {a : A} → ◌≢◌ {A = Io E A} (returns (failed e)) (returns (ok a))
  failed-ne-ok h = cc

  pub returned_ok {ℓ} :
      {A : Type ℓ} {a b : A} → ◌≡◌ {A = Io E A} (returns (ok a)) (returns (ok b)) → a ≡ b
  returned_ok h = cc
