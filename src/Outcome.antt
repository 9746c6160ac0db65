-- ===== src/Outcome.antt =====
-- What a Rust call does: it returns or it panics. `stuck` is no Rust behaviour; it says that the fuel
-- of a loop in the model ran out.
use grpc_rust.Prelude.{ℕ, ◌≡◌, ◌≢◌, refl, ◌⊎◌, inl, inr, Option, none, some}

-- The panics of src/, by their site; `user` is a panic of code that the library is handed.
pub data Panic : Type 0 where
  compression_not_implemented : Panic
  unknown_compression_flag : Panic
  unknown_method : Panic
  unwrap_none : Panic
  unwrap_err : Panic
  bad_preface : Panic
  slice_out_of_range : Panic
  no_entry : Panic
  user : ℕ → Panic

pub data Outcome {ℓ} (A : Type ℓ) : Type ℓ where
  returns : A → Outcome A
  panics : Panic → Outcome A
  stuck : Outcome A

infixl 5 ◌>>=◌ ◌>>◌
abbrev pub ◌>>=◌ {ℓ κ} : {A : Type ℓ} {B : Type κ} → Outcome A → (A → Outcome B) → Outcome B
returns a >>= f = f a
panics p >>= f = panics p
stuck >>= f = stuck

abbrev pub ◌>>◌ {ℓ κ} : {A : Type ℓ} {B : Type κ} → Outcome A → Outcome B → Outcome B
m >> k = m >>= λ _. k

pub bind_assoc {ℓ κ μ} :
    {A : Type ℓ} {B : Type κ} {C : Type μ} (m : Outcome A) (f : A → Outcome B) (g : B → Outcome C)
    → (m >>= f >>= g) ≡ (m >>= λ a. f a >>= g)
bind_assoc (returns a) f g = refl
bind_assoc (panics p) f g = refl
bind_assoc stuck f g = refl

pub bind-returns {ℓ} : {A : Type ℓ} (m : Outcome A) → (m >>= λ a. returns a) ≡ m
bind-returns (returns a) = refl
bind-returns (panics p) = refl
bind-returns stuck = refl

pub Outcome-cases {ℓ} :
    {A : Type ℓ} (m : Outcome A)
    → ((a : A) × (m ≡ returns a)) ⊎ ((p : Panic) × (m ≡ panics p)) ⊎ (m ≡ stuck)
Outcome-cases (returns a) = inl (a, refl)
Outcome-cases (panics p) = inr (inl (p, refl))
Outcome-cases stuck = inr (inr refl)

-- `unwrap` and `expect`: a value, or the panic of the site.
abbrev pub expect {ℓ} : {A : Type ℓ} → Option A → Panic → Outcome A
expect (some a) p = returns a
expect none p = panics p

pub bind-ne-stuck {ℓ κ} :
    {A : Type ℓ} {B : Type κ} (m : Outcome A) (f : A → Outcome B)
    → m ≢ stuck
    → ((a : A) → f a ≢ stuck)
    → (m >>= f) ≢ stuck
bind-ne-stuck (returns a) f hm hf = hf a
bind-ne-stuck (panics p) f hm hf = λ e. cc
bind-ne-stuck stuck f hm hf = λ e. hm refl

pub bind-eq-returns {ℓ κ} :
    {A : Type ℓ} {B : Type κ} (m : Outcome A) (f : A → Outcome B) {b : B}
    → (m >>= f) ≡ returns b
    → (a : A) × (m ≡ returns a) × (f a ≡ returns b)
bind-eq-returns (returns a) f h = (a, refl, h)
bind-eq-returns (panics p) f h = cc
bind-eq-returns stuck f h = cc

pub returns-injective {ℓ} : {A : Type ℓ} {a b : A} → returns a ≡ returns b → a ≡ b
returns-injective h = cc

pub bind_both {ℓ κ μ} :
    {A : Type ℓ} {B : Type κ} {C : Type μ} (m : Outcome A) (n : Outcome B) (f : A → B → C) {a : A}
    {b : B}
    → m ≡ returns a
    → n ≡ returns b
    → (m >>= λ x. n >>= λ y. returns (f x y)) ≡ returns (f a b)
bind_both m n f e e' = rw (e, e')

-- A chain of calls that returns: its first call has returned, and then the rest has.
pub then-eq-returns {ℓ κ μ} :
    {A : Type ℓ} {B : Type κ} {R : Type μ} (m : Outcome A) (f : A → Outcome B) {b : B}
    → (m >>= f) ≡ returns b
    → ((a : A) → m ≡ returns a → f a ≡ returns b → R)
    → R
then-eq-returns (returns a) f h k = k a refl h
then-eq-returns (panics p) f h k = cc
then-eq-returns stuck f h k = cc

pub expect-eq-returns {ℓ} :
    {A : Type ℓ} (o : Option A) (p : Panic) {a : A} → expect o p ≡ returns a → o ≡ some a
expect-eq-returns (some b) p h = cc
expect-eq-returns none p h = cc
