-- ===== src/Helloworld/Reflection/Declared.antt =====
-- The messages of grpc-examples/src/helloworld.rs against the descriptor that the file embeds.
use grpc_rust.Prelude.{
  ℕ, ◌≡◌, refl, Option, none, some, Bytes, ascii, bytes_eq, Bool-cases, inl, inr, Option-cases,
  ◌==◌, if◌then◌else◌, ◌&&◌,
}
use grpc_rust.Helloworld.Runtime.{Runtime}
use grpc_rust.Helloworld.Request
use grpc_rust.Helloworld.Request.{HelloRequest}
use grpc_rust.Helloworld.Reply
use grpc_rust.Helloworld.Reply.{HelloReply}
use grpc_rust.Helloworld.Reflection.Data.{file_descriptor_proto_data}
use grpc_rust.Helloworld.Reflection.Wire.{
  File, Field, described, message_named, field_named, field_numbered,
}
use grpc_rust.Helloworld.Reflection.File.{request_field, reply_field, described_lem}

-- What the embedded bytes declare for a message: the field of a number, and the field of a name.
abbrev field_in : Option File → Bytes → ℕ → Option Field
field_in none message n = none
field_in (some file) message n = elim (message_named file.message_types message) [
  | some m ↦ field_numbered m.fields n
  | none ↦ none
]

abbrev pub declared : Bytes → ℕ → Option Field
declared message n = field_in (described file_descriptor_proto_data) message n

abbrev field_called : Option File → Bytes → Bytes → Option Field
field_called none message name = none
field_called (some file) message name = elim (message_named file.message_types message) [
  | some m ↦ field_named m.fields name
  | none ↦ none
]

abbrev pub declared_called : Bytes → Bytes → Option Field
declared_called message name = field_called (described file_descriptor_proto_data) message name

-- Fields are of type string, 9, and called `name`; `string` reads such a field, `unknown` any other.
abbrev as_declared {ℓ} : {A : Type ℓ} → Bytes → Option Field → Option A → Option A → Option A
as_declared name (some f) string unknown =
    if bytes_eq f.name name && (f.field_type == 9) then string else none
as_declared name none string unknown = unknown

abbrev map_option {ℓ κ} : {A : Type ℓ} {B : Type κ} → (A → B) → Option A → Option B
map_option f none = none
map_option f (some a) = some (f a)

module _ (rt : Runtime) where
  open rt use {SingularField, UnknownFields, WireType, Input, Output}

  abbrev written_under : ℕ → Option Bytes → Output → Option Output
  written_under n none os = some os
  written_under n (some v) os = rt.write_string n v os

  abbrev written_as : Option Field → Option Bytes → Output → Option Output
  written_as none v os = none
  written_as (some field) v os = written_under field.field_number v os

  abbrev then_unknown : UnknownFields → Option Output → Option Output
  then_unknown unknown none = none
  then_unknown unknown (some os) = rt.write_unknown_fields unknown os

  -- The code of a message does with every field number what the embedded descriptor says: on reading,
  -- a field that it declares is the string field of this name, and any other is unknown; on writing,
  -- the field of this name, if it is there, goes out under the number that is declared for it, in
  -- front of the unknown ones.
  pub record FollowsDescriptor {M : Type 0} (message name : Bytes) (get : M → SingularField)
      (set : SingularField → M → M) (get_unknown : M → UnknownFields)
      (set_unknown : UnknownFields → M → M)
      (read_field : ℕ → WireType → Input → M → Option (M × Input))
      (write : M → Output → Option Output) : Type 0 where
    pub reads :
        (n : ℕ) (wire_type : WireType) (is : Input) (self : M)
        → read_field n wire_type is self
          ≡ as_declared name
              (declared message n)
              (map_option
                (λ r. (set r.0 self, r.1))
                (rt.read_singular_string_into wire_type is (get self)))
              (map_option
                (λ r. (set_unknown r.0 self, r.1))
                (rt.read_unknown_or_skip_group n wire_type is (get_unknown self)))
    pub writes :
        (self : M) (os : Output)
        → write self os
          ≡ then_unknown
              (get_unknown self)
              (written_as (declared_called message name) (rt.as_ref (get self)) os)

  declared_request :
      (n : ℕ) → declared (ascii "HelloRequest") n ≡ (if n == 1 then some request_field else none)
  unfolding bytes_eq
  declared_request n = rw described_lem refl

  called_request : declared_called (ascii "HelloRequest") (ascii "name") ≡ some request_field
  unfolding bytes_eq
  called_request = rw described_lem refl

  abbrev pub RequestFollows : Type 0
  RequestFollows =
      FollowsDescriptor (ascii "HelloRequest") (ascii "name") (λ (m : HelloRequest rt). m.name)
        (λ field m. record m { name = field }) (λ m. m.unknown_fields)
        (λ unknown m. record m { unknown_fields = unknown }) (Request.read_field rt)
        (Request.write_to_with_cached_sizes rt)

  write_request :
      (self : HelloRequest rt) (os : Output)
      → Request.write_to_with_cached_sizes rt self os
        ≡ then_unknown self.unknown_fields (written_under 1 (rt.as_ref self.name) os)
  unfolding Request.write_to_with_cached_sizes
  write_request self os = elim (Option-cases (rt.as_ref self.name)) [
    | inl e ↦ rw (e, Request.write_to_with_cached_sizes) refl
    | inr (v, e) ↦
        rw (e, Request.write_to_with_cached_sizes)
          (elim (Option-cases (rt.write_string 1 v os)) [
            | inl e' ↦ rw e' refl
            | inr (os', e') ↦ rw e' refl
          ])
  ]

  request-FollowsDescriptor : RequestFollows
  unfolding Request.read_field bytes_eq
  request-FollowsDescriptor = record {
    reads = λ n w is self.
        rw (declared_request n)
          (elim (Bool-cases (n == 1)) [ inl e ↦ rw e refl | inr e ↦ rw e refl ]);
    writes = λ self os. rw called_request (write_request self os);
  }

  declared_reply :
      (n : ℕ) → declared (ascii "HelloReply") n ≡ (if n == 1 then some reply_field else none)
  unfolding bytes_eq
  declared_reply n = rw described_lem refl

  called_reply : declared_called (ascii "HelloReply") (ascii "message") ≡ some reply_field
  unfolding bytes_eq
  called_reply = rw described_lem refl

  abbrev pub ReplyFollows : Type 0
  ReplyFollows =
      FollowsDescriptor (ascii "HelloReply") (ascii "message") (λ (m : HelloReply rt). m.message)
        (λ field m. record m { message = field }) (λ m. m.unknown_fields)
        (λ unknown m. record m { unknown_fields = unknown }) (Reply.read_field rt)
        (Reply.write_to_with_cached_sizes rt)

  write_reply :
      (self : HelloReply rt) (os : Output)
      → Reply.write_to_with_cached_sizes rt self os
        ≡ then_unknown self.unknown_fields (written_under 1 (rt.as_ref self.message) os)
  unfolding Reply.write_to_with_cached_sizes
  write_reply self os = elim (Option-cases (rt.as_ref self.message)) [
    | inl e ↦ rw (e, Reply.write_to_with_cached_sizes) refl
    | inr (v, e) ↦
        rw (e, Reply.write_to_with_cached_sizes)
          (elim (Option-cases (rt.write_string 1 v os)) [
            | inl e' ↦ rw e' refl
            | inr (os', e') ↦ rw e' refl
          ])
  ]

  reply-FollowsDescriptor : ReplyFollows
  unfolding Reply.read_field bytes_eq
  reply-FollowsDescriptor = record {
    reads = λ n w is self.
        rw (declared_reply n)
          (elim (Bool-cases (n == 1)) [ inl e ↦ rw e refl | inr e ↦ rw e refl ]);
    writes = λ self os. rw called_reply (write_reply self os);
  }

  -- Both messages follow the descriptor that the file embeds for them, for every field number, wire
  -- type, input, output and value: their parsers and their writers agree with it on the numbers and
  -- the names of the fields, and on what is unknown.
  pub messages_follow : RequestFollows × ReplyFollows
  messages_follow = (request-FollowsDescriptor, reply-FollowsDescriptor)
