-- ===== src/Tests/Reflections.antt =====
-- The reflection of the example messages at a concrete runtime.
use grpc_rust.Prelude.{
  ◌≡◌, refl, Bool, true, false, ascii, ℕ, map, Option, none, some, List, [], ◌∷◌, Bytes, All,
  none-ne-some,
}
use grpc_rust.Outcome.{Outcome, returns, panics, stuck, unwrap_none}
use grpc_rust.Helloworld.Reflection.Wire.{
  File, MessageType, Field, Method, Service, described, message_named, field_named,
}
use grpc_rust.Helloworld.Reflection.Runtime.{ReflectionRuntime, IsReflection}
use grpc_rust.Helloworld.Reflection.Lazies.{FileFits}
use grpc_rust.Helloworld.Reflection.Calls.{
  Statics, KeepsAll, request_descriptor_static, reply_descriptor_static, use_all, use_all-returns,
}
use grpc_rust.Helloworld.Reflection.Declared.{RequestFollows, ReplyFollows}
use grpc_rust.Helloworld.Reflection.Follows.{ServiceFollows, declared_routes, example_follows}
use grpc_rust.Helloworld.Reflection.File.{request_type, reply_type, described_lem}
use grpc_rust.Helloworld.Programs.{greeter_impl}
use grpc_rust.Codegen.Protobuf.{MethodDescriptorProto, ServiceDescriptorProto}
use grpc_rust.Helloworld.Reflection.Data.{file_descriptor_proto_data}
use grpc_rust.Tests.Printing.{helloworld}
use grpc_rust.Tests.Protobufs.{toy_rt}

-- Every accessor's field has to be there.
abbrev with_fields : MessageType → Bytes → List Bytes → Outcome Bytes
with_fields m name [] = returns name
with_fields m name (a ∷ rest) = elim (field_named m.fields a) [
  | some f ↦ with_fields m name rest
  | none ↦ panics unwrap_none
]

abbrev with_message : Bytes → List Bytes → File → Outcome Bytes
with_message name accessors file = elim (message_named file.message_types name) [
  | some m ↦ with_fields m name accessors
  | none ↦ panics unwrap_none
]

abbrev get_option :
    {A S : Type 0} → Option A → (S → Outcome (A × S)) → S → Outcome (A × Option A × S)
get_option (some a) init s = returns (a, some a, s)
get_option none init s = elim (init s) [
  | returns r ↦ returns (r.0, some r.0, r.1)
  | panics p ↦ panics p
  | stuck ↦ stuck
]

abbrev toy_rx : ReflectionRuntime
toy_rx = record {
  FileDescriptorProto = File;
  MessageDescriptor = Bytes;
  FieldAccessor = λ M. Bytes;
  Lazy = λ A. Option A;
  parse_from_bytes = described;
  make_singular_string_accessor = λ name has get. name;
  message_descriptor = λ name accessors d. with_message name accessors d;
  new_lazy = none;
  get = λ l init s. get_option l init s;
}

with_fields-returns :
    (m : MessageType) (name : Bytes) (accessors : List Bytes)
    → All (λ a. (f : Field) × (field_named m.fields a ≡ some f)) accessors
    → with_fields m name accessors ≡ returns name
with_fields-returns m name [] h = refl
with_fields-returns m name (a ∷ rest) ((f, e), h) =
    rw (e, with_fields) (with_fields-returns m name rest h)

toy-IsReflection : IsReflection toy_rx
toy-IsReflection = record {
  view = λ d. d;
  parsed = λ bytes file e. (file, e, refl);
  accessor_name = λ a. a;
  named = λ name has get. refl;
  message_made = λ name accessors d m e h.
      (name, rw (e, with_message) (with_fields-returns m name accessors h));
  content = λ l. l;
  new_content = refl;
  first_get = λ l init s s' a e made. (some a, rw (e, get_option) (rw made refl), refl);
  later_get = λ l init s a e. rw (e, get_option) refl;
}

abbrev fresh_statics : Statics toy_rt toy_rx
fresh_statics = record {
  request_instance = none;
  request_descriptor = none;
  reply_instance = none;
  reply_descriptor = none;
  file_descriptor_proto_lazy = none;
}

fresh-FileFits : FileFits toy_rx toy-IsReflection none
unfolding toy-IsReflection
fresh-FileFits d h = absurd (none-ne-some h)

use_all-returns_example :
    (s' : Statics toy_rt toy_rx) × (use_all toy_rt toy_rx
        (request_descriptor_static ∷ reply_descriptor_static ∷ request_descriptor_static ∷ [])
        fresh_statics
      ≡ returns s')
    × KeepsAll toy_rt toy_rx toy-IsReflection fresh_statics s'
    × FileFits toy_rx toy-IsReflection s'.file_descriptor_proto_lazy
use_all-returns_example =
    use_all-returns toy_rt toy_rx toy-IsReflection
      (request_descriptor_static ∷ reply_descriptor_static ∷ request_descriptor_static ∷ [])
      fresh_statics fresh-FileFits

example_follows_example :
    RequestFollows toy_rt × ReplyFollows toy_rt × ServiceFollows toy_rt (greeter_impl toy_rt)
example_follows_example = example_follows toy_rt (greeter_impl toy_rt)

the_routes : declared_routes ≡ (ascii "/helloworld.Greeter/SayHello", false, false) ∷ []
the_routes = rw described_lem refl

-- The descriptor that the generator is tested with, and the one that the generated file embeds.
abbrev flag : Bool → ℕ
flag true = 1
flag false = 0

abbrev as_method : MethodDescriptorProto → Method
as_method m = record {
  name = ascii m.name;
  input_type = ascii m.input_type;
  output_type = ascii m.output_type;
  client_streaming = flag m.client_streaming;
  server_streaming = flag m.server_streaming;
}

abbrev as_service : ServiceDescriptorProto → Service
as_service s = record { name = ascii s.name; methods = map as_method s.methods }

generated_from_embedded :
    described file_descriptor_proto_data
    ≡ some (record {
      name = ascii helloworld.name;
      package_name = ascii helloworld.package_name;
      message_types = request_type ∷ reply_type ∷ [];
      services = map as_service helloworld.services;
    })
generated_from_embedded = described_lem
