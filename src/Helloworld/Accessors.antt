-- ===== src/Helloworld/Accessors.antt =====
-- The accessors of a message of grpc-examples/src/helloworld.rs with one optional string field, against
-- an optional string.
use grpc_rust.Prelude.{◌≡◌, refl, Bool, true, false, Option, none, some, List, [], ◌∷◌, Bytes}
use grpc_rust.Outcome.{Outcome, returns, ◌>>=◌}
use grpc_rust.Helloworld.Runtime.{Runtime}

-- The documented behaviour of `SingularField` that the theorem relies on: what `as_ref` shows after
-- each of its methods.
pub record IsField (rt : Runtime) : Type 0 where
  pub is_some_none : (f : rt.SingularField) → rt.as_ref f ≡ none → rt.is_some f ≡ false
  pub is_some_some : (f : rt.SingularField) (v : Bytes) → rt.as_ref f ≡ some v → rt.is_some f ≡ true
  pub set : (v : Bytes) → rt.as_ref (rt.some_field v) ≡ some v
  pub cleared : (f : rt.SingularField) → rt.as_ref (rt.clear_field f) ≡ none
  pub defaulted :
      (f : rt.SingularField) → rt.as_ref f ≡ none → rt.as_ref (rt.set_default f) ≡ some []
  pub taken : (f : rt.SingularField) → (rt.take_field f).0 ≡ rt.as_ref f
  pub emptied : (f : rt.SingularField) → rt.as_ref (rt.take_field f).1 ≡ none

-- A call of `set_name`, `clear_name`, `mut_name`, `take_name` or `Clear::clear`, or of what another
-- message has in their place.
pub data Access : Type 0 where
  sets : Bytes → Access
  clears : Access
  shows_mut : Access
  takes : Access
  clears_message : Access

-- What a call gives, and what the `has` and `get` accessors say after it.
pub record Answer : Type 0 where
  pub given : Bytes
  pub has : Bool
  pub get : Bytes

abbrev pub is_there : Option Bytes → Bool
is_there none = false
is_there (some v) = true

abbrev pub or_empty : Option Bytes → Bytes
or_empty none = []
or_empty (some v) = v

-- The calls on an optional string: what they give, and what they leave.
abbrev pub gives : Access → Option Bytes → Bytes
gives (sets v) o = []
gives clears o = []
gives shows_mut o = or_empty o
gives takes o = or_empty o
gives clears_message o = []

abbrev pub leaves : Access → Option Bytes → Option Bytes
leaves (sets v) o = some v
leaves clears o = none
leaves shows_mut o = some (or_empty o)
leaves takes o = none
leaves clears_message o = none

abbrev pub expected : List Access → Option Bytes → List Answer
expected [] o = []
expected (a ∷ accesses) o =
    let o' = leaves a o in
    record { given = gives a o; has = is_there o'; get = or_empty o' } ∷ expected accesses o'

-- A message with its accessors.
pub record Accessors (M : Type 0) : Type 0 where
  pub access : Access → M → Outcome (Bytes × M)
  pub has : M → Bool
  pub get : M → Bytes

unfoldable pub access_all : {M : Type 0} → Accessors M → List Access → M → Outcome (List Answer)
access_all on [] m = returns []
access_all on (a ∷ accesses) m = do
  (given, m') ← on.access a m
  answers ← access_all on accesses m'
  returns (record { given = given; has = on.has m'; get = on.get m' } ∷ answers)

-- A message whose accessors do what the same calls do on the optional string that it shows.
pub record IsOptional {M : Type 0} (on : Accessors M) (view : M → Option Bytes) : Type 0 where
  pub accessed :
      (a : Access) (m : M)
      → (m' : M) × (on.access a m ≡ returns (gives a (view m), m')) × (view m' ≡ leaves a (view m))
  pub has_lem : (m : M) → on.has m ≡ is_there (view m)
  pub get_lem : (m : M) → on.get m ≡ or_empty (view m)

pub access_all-expected :
    {M : Type 0} {on : Accessors M} {view : M → Option Bytes}
    → IsOptional on view
    → (accesses : List Access) (m : M)
    → access_all on accesses m ≡ returns (expected accesses (view m))
unfolding access_all
access_all-expected p [] m = refl
access_all-expected {view = view} p (a ∷ accesses) m =
    let (m', e, v) = p.accessed a m in
    rw (e, access_all-expected p accesses m', p.has_lem m', p.get_lem m', v) refl
