-- ===== src/Helloworld/Runtime.antt =====
-- What the messages of grpc-examples/src/helloworld.rs use of the `protobuf` crate, which is not in
-- the repository. A Rust `String` is its bytes; `none` is an `Err` of a `ProtobufResult`.
use grpc_rust.Prelude.{
  ℕ, ◌^◌, ◌≤◌, ◌<◌, ◌≡◌, Bool, true, false, Option, none, some, [], ◌∷◌, ◌++◌, Bytes, length,
}
use grpc_rust.Marshall.Utf8.{is_utf8}

-- `SingularField<String>`, `UnknownFields`, the coded streams, and the functions of `protobuf::rt`.
-- `write_to_bytes` is the default method of `Message` behind `compute_size`: it takes the size and
-- the message's writer.
pub record Runtime : Type 1 where
  pub SingularField : Type 0
  pub UnknownFields : Type 0
  pub WireType : Type 0
  pub Input : Type 0
  pub Output : Type 0
  pub none_field : SingularField
  pub some_field : Bytes → SingularField
  pub as_ref : SingularField → Option Bytes
  pub is_some : SingularField → Bool
  pub clear_field : SingularField → SingularField
  pub set_default : SingularField → SingularField
  pub take_field : SingularField → Option Bytes × SingularField
  pub field_eq : SingularField → SingularField → Bool
  pub no_unknown : UnknownFields
  pub clear_unknown : UnknownFields → UnknownFields
  pub unknown_eq : UnknownFields → UnknownFields → Bool
  pub from_bytes : Bytes → Input
  pub eof : Input → Option (Bool × Input)
  pub read_tag_unpack : Input → Option ((ℕ × WireType) × Input)
  pub read_singular_string_into : WireType → Input → SingularField → Option (SingularField × Input)
  pub read_unknown_or_skip_group :
      ℕ → WireType → Input → UnknownFields → Option (UnknownFields × Input)
  pub string_size : ℕ → Bytes → ℕ
  pub unknown_fields_size : UnknownFields → ℕ
  pub write_string : ℕ → Bytes → Output → Option Output
  pub write_unknown_fields : UnknownFields → Output → Option Output
  pub write_to_bytes : ℕ → (Output → Option Output) → Option Bytes

-- The documented behaviour that the theorems rely on: a field holds what it is set to, a writer
-- appends, `write_to_bytes` takes the writer's bytes when they are as many as the size says, and a string field that was written is read back as that string. `rest` is what an input
-- has left, `written` what an output has taken, and `field_bytes` the wire form of a string field.
pub record IsProtobuf (rt : Runtime) : Type 0 where
  pub rest : rt.Input → Bytes
  pub written : rt.Output → Bytes
  pub empty : rt.Output
  pub field_bytes : ℕ → Bytes → Bytes
  pub delimited : rt.WireType
  pub as_ref_none : rt.as_ref rt.none_field ≡ none
  pub as_ref_some : (v : Bytes) → rt.as_ref (rt.some_field v) ≡ some v
  pub written_empty : written empty ≡ []
  pub string_written :
      (n : ℕ) (v : Bytes) (o : rt.Output)
      → (o' : rt.Output) × (rt.write_string n v o ≡ some o')
        × (written o' ≡ written o ++ field_bytes n v)
  pub unknown_written : (o : rt.Output) → rt.write_unknown_fields rt.no_unknown o ≡ some o
  pub string_sized :
      (n : ℕ) (v : Bytes)
      → length (field_bytes n v) < 2 ^ 32
      → rt.string_size n v ≡ length (field_bytes n v)
  pub unknown_sized : rt.unknown_fields_size rt.no_unknown ≡ 0
  pub bytes_written :
      (size : ℕ) (writer : rt.Output → Option rt.Output) (o : rt.Output)
      → writer empty ≡ some o
      → length (written o) ≡ size
      → rt.write_to_bytes size writer ≡ some (written o)
  pub rest_from_bytes : (bytes : Bytes) → rest (rt.from_bytes bytes) ≡ bytes
  pub eof_at_end : (i : rt.Input) → rest i ≡ [] → rt.eof i ≡ some (true, i)
  pub eof_before :
      (i : rt.Input) (b : ℕ) (bs : Bytes) → rest i ≡ b ∷ bs → rt.eof i ≡ some (false, i)
  pub eof_keeps : (i i' : rt.Input) (ended : Bool) → rt.eof i ≡ some (ended, i') → rest i' ≡ rest i
  pub field_cons : (n : ℕ) (v : Bytes) → (b : ℕ) × (bs : Bytes) × (field_bytes n v ≡ b ∷ bs)
  pub string_read :
      (n : ℕ) (v more : Bytes) (i : rt.Input) (f : rt.SingularField)
      → is_utf8 v ≡ true
      → length v < 2 ^ 32
      → rest i ≡ field_bytes n v ++ more
      → (i1 i2 : rt.Input) × (rt.read_tag_unpack i ≡ some ((n, delimited), i1))
        × (rt.read_singular_string_into delimited i1 f ≡ some (rt.some_field v, i2))
        × (rest i2 ≡ more)
  pub tag_consumes :
      (i i' : rt.Input) (tag : ℕ × rt.WireType)
      → rt.read_tag_unpack i ≡ some (tag, i')
      → length (rest i') < length (rest i)
  pub string_consumes :
      (w : rt.WireType) (i i' : rt.Input) (f f' : rt.SingularField)
      → rt.read_singular_string_into w i f ≡ some (f', i')
      → length (rest i') ≤ length (rest i)
  pub unknown_consumes :
      (n : ℕ) (w : rt.WireType) (i i' : rt.Input) (u u' : rt.UnknownFields)
      → rt.read_unknown_or_skip_group n w i u ≡ some (u', i')
      → length (rest i') ≤ length (rest i)
