-- ===== src/Helloworld/Reflection/Runtime.antt =====
-- What the reflection of grpc-examples/src/helloworld.rs uses of the `protobuf` crate, which is not
-- in the repository.
use grpc_rust.Prelude.{◌≡◌, Bool, Option, none, some, List, Bytes, All}
use grpc_rust.Outcome.{Outcome, returns}
use grpc_rust.Helloworld.Reflection.Wire.{
  File, MessageType, Field, described, message_named, field_named,
}

-- `parse_from_bytes` at a file's descriptor, with `none` for an `Err`; `FieldAccessor` and
-- `MessageDescriptor::new`, which may panic; and `Lazy`, whose `get` runs the closure at most once.
-- The closure may use other statics, which are `S`.
pub record ReflectionRuntime : Type 1 where
  pub FileDescriptorProto : Type 0
  pub MessageDescriptor : Type 0
  pub FieldAccessor : Type 0 → Type 0
  pub Lazy : Type 0 → Type 0
  pub parse_from_bytes : Bytes → Option FileDescriptorProto
  pub make_singular_string_accessor :
      {M : Type 0} → Bytes → (M → Bool) → (M → Bytes) → FieldAccessor M
  pub message_descriptor :
      {M : Type 0}
      → Bytes
      → List (FieldAccessor M)
      → FileDescriptorProto
      → Outcome MessageDescriptor
  pub new_lazy : {A : Type 0} → Lazy A
  pub get : {A S : Type 0} → Lazy A → (S → Outcome (A × S)) → S → Outcome (A × Lazy A × S)

-- The documented behaviour that the theorem relies on. `view` shows what a parsed descriptor says: a
-- descriptor is parsed as what its bytes describe on the wire. An accessor has the name that it is
-- made with; a message descriptor is made if the file has the message and its fields. A `Lazy` has no
-- content at first; its first `get` keeps the value that the closure returns, and later ones show it.
pub record IsReflection (rx : ReflectionRuntime) : Type 1 where
  pub view : rx.FileDescriptorProto → File
  pub parsed :
      (bytes : Bytes) (file : File)
      → described bytes ≡ some file
      → (d : rx.FileDescriptorProto) × (rx.parse_from_bytes bytes ≡ some d) × (view d ≡ file)
  pub accessor_name : {M : Type 0} → rx.FieldAccessor M → Bytes
  pub named :
      {M : Type 0} (name : Bytes) (has : M → Bool) (get : M → Bytes)
      → accessor_name (rx.make_singular_string_accessor name has get) ≡ name
  pub message_made :
      {M : Type 0} (name : Bytes) (accessors : List (rx.FieldAccessor M))
      (d : rx.FileDescriptorProto) (m : MessageType)
      → message_named (view d).message_types name ≡ some m
      → All (λ a. (f : Field) × (field_named m.fields (accessor_name a) ≡ some f)) accessors
      → (md : rx.MessageDescriptor) × (rx.message_descriptor name accessors d ≡ returns md)
  pub content : {A : Type 0} → rx.Lazy A → Option A
  pub new_content : {A : Type 0} → content (rx.new_lazy {A = A}) ≡ none
  pub first_get :
      {A S : Type 0} (l : rx.Lazy A) (init : S → Outcome (A × S)) (s s' : S) (a : A)
      → content l ≡ none
      → init s ≡ returns (a, s')
      → (l' : rx.Lazy A) × (rx.get l init s ≡ returns (a, l', s')) × (content l' ≡ some a)
  pub later_get :
      {A S : Type 0} (l : rx.Lazy A) (init : S → Outcome (A × S)) (s : S) (a : A)
      → content l ≡ some a
      → rx.get l init s ≡ returns (a, l, s)
