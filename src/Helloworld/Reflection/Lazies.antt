-- ===== src/Helloworld/Reflection/Lazies.antt =====
-- A use of a static of grpc-examples/src/helloworld.rs.
use grpc_rust.Prelude.{
  ◌≡◌, ◌∙◌, refl, ◌⊎◌, inl, inr, none, some, List, Option-cases, All, Bytes, none-ne-some,
  some-injective, sym, ap,
}
use grpc_rust.Outcome.{Outcome, returns, ◌>>=◌}
use grpc_rust.Helloworld.Reflection.Data.{file_descriptor_proto_data}
use grpc_rust.Helloworld.Reflection.File.{helloworld_proto, described_lem}
use grpc_rust.Helloworld.Reflection.Wire.{File, MessageType, Field, message_named, field_named}
use grpc_rust.Helloworld.Reflection.Runtime.{ReflectionRuntime, IsReflection}
use grpc_rust.Helloworld.Reflection.Embedded.{parse_descriptor_proto, file_descriptor_proto}

module _ (rx : ReflectionRuntime) (p : IsReflection rx) where
  open rx use {Lazy, FileDescriptorProto, MessageDescriptor}

  parse_lem :
      (d : FileDescriptorProto) × (parse_descriptor_proto rx ≡ returns d)
      × (p.view d ≡ helloworld_proto)
  unfolding parse_descriptor_proto
  parse_lem =
      let (d, e, v) = p.parsed file_descriptor_proto_data helloworld_proto described_lem in
      (d, rw e refl, v)

  -- A static keeps the value that it has.
  abbrev pub Keeps : {A : Type 0} → Lazy A → Lazy A → Type 0
  Keeps {A} l l' = (a : A) → p.content l ≡ some a → p.content l' ≡ some a

  -- A use of a static whose closure returns.
  pub get_lem :
      {A S : Type 0} (l : Lazy A) (init : S → Outcome (A × S)) (s s' : S) (a : A)
      → init s ≡ returns (a, s')
      → (a' : A) × (l' : Lazy A) × (s'' : S) × (rx.get l init s ≡ returns (a', l', s''))
        × (p.content l' ≡ some a')
        × Keeps l l'
        × (((p.content l ≡ none) × (a' ≡ a) × (s'' ≡ s')) ⊎ ((p.content l ≡ some a') × (s'' ≡ s)))
  get_lem l init s s' a made = elim (Option-cases (p.content l)) [
    | inl e ↦
        let (l', got, kept) = p.first_get l init s s' a e made in
        (
          a,
          l',
          s',
          got,
          kept,
          (λ b there. absurd (none-ne-some (sym e ∙ there))),
          inl (e, refl, refl),
        )
    | inr (b, e) ↦ (b, l, s, p.later_get l init s b e, e, (λ c there. there), inr (e, refl))
  ]

  -- The static of the file is fresh, or it keeps the descriptor of helloworld.proto.
  abbrev pub FileFits : Lazy FileDescriptorProto → Type 0
  FileFits l = (d : FileDescriptorProto) → p.content l ≡ some d → p.view d ≡ helloworld_proto

  pub file_descriptor_proto_lem :
      (l : Lazy FileDescriptorProto)
      → FileFits l
      → (d : FileDescriptorProto) × (l' : Lazy FileDescriptorProto) × (file_descriptor_proto rx l
          ≡ returns (d, l'))
        × (p.view d ≡ helloworld_proto)
        × FileFits l'
        × Keeps l l'
  unfolding file_descriptor_proto
  file_descriptor_proto_lem l fits =
      let (d, parsed, v) = parse_lem in
      let (d', l', s, got, kept, keeps, how) =
        get_lem l (λ (s : Unit {0}). parse_descriptor_proto rx >>= λ d. returns (d, s)) tt tt d
          (rw parsed refl) in
      let v' : p.view d' ≡ helloworld_proto = elim how [
        | inl (_, e, _) ↦ ap p.view e ∙ v
        | inr (e, _) ↦ fits d' e
      ] in
      (d', l', rw got refl, v', (λ d'' e. ap p.view (some-injective (sym e ∙ kept)) ∙ v'), keeps)

  -- The closure of a message's `descriptor_static`.
  abbrev pub described_by :
      {M : Type 0}
      → Bytes
      → List (rx.FieldAccessor M)
      → Lazy FileDescriptorProto
      → Outcome (MessageDescriptor × Lazy FileDescriptorProto)
  described_by name accessors file_lazy = do
    (file, file_lazy') ← file_descriptor_proto rx file_lazy
    descriptor ← rx.message_descriptor name accessors file
    returns (descriptor, file_lazy')

  -- A use of a message's descriptor, whose fields helloworld.proto declares.
  pub descriptor_lem :
      {M : Type 0} (name : Bytes) (accessors : List (rx.FieldAccessor M)) (m : MessageType)
      → message_named helloworld_proto.message_types name ≡ some m
      → All (λ a. (f : Field) × (field_named m.fields (p.accessor_name a) ≡ some f)) accessors
      → (l : Lazy MessageDescriptor) (file_lazy : Lazy FileDescriptorProto) → FileFits file_lazy
      → (md : MessageDescriptor) × (l' : Lazy MessageDescriptor) × (file_lazy' : Lazy
          FileDescriptorProto)
        × (rx.get l (described_by name accessors) file_lazy ≡ returns (md, l', file_lazy'))
        × Keeps l l'
        × FileFits file_lazy'
        × Keeps file_lazy file_lazy'
  descriptor_lem name accessors m found declared l file_lazy fits =
      let (d, file_lazy', got, v, fits', keeps) = file_descriptor_proto_lem file_lazy fits in
      let (md, made) =
        p.message_made name accessors d m
          (ap (λ (f : File). message_named f.message_types name) v ∙ found) declared in
      let (md', l', s, used, kept, keeps_l, how) =
        get_lem l (described_by name accessors) file_lazy file_lazy' md (rw got (rw made refl)) in
      elim how [
        | inl (_, _, e) ↦
            (md', l', file_lazy', used ∙ ap (λ s. returns (md', l', s)) e, keeps_l, fits', keeps)
        | inr (_, e) ↦
            (md', l', file_lazy, used ∙ ap (λ s. returns (md', l', s)) e, keeps_l, fits, (λ a h. h))
      ]
