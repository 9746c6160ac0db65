-- ===== src/Helloworld/Reply/Static.antt =====
-- The statics of `HelloReply` in grpc-examples/src/helloworld.rs: its default instance and its descriptor.
use grpc_rust.Prelude.{[], ◌∷◌, ascii}
use grpc_rust.Outcome.{Outcome, returns, ◌>>=◌}
use grpc_rust.Helloworld.Runtime.{Runtime}
use grpc_rust.Helloworld.Reply.{HelloReply, has_message, get_message}
use grpc_rust.Helloworld.Reflection.Runtime.{ReflectionRuntime}
use grpc_rust.Helloworld.Reflection.Embedded.{file_descriptor_proto}

module _ (rt : Runtime) (rx : ReflectionRuntime) where
  open rx use {Lazy, FileDescriptorProto, MessageDescriptor}

  -- The closure of `default_instance`.
  abbrev pub make_instance : Unit {0} → Outcome (HelloReply rt × Unit {0})
  make_instance s =
      returns
        (record { message = rt.none_field; unknown_fields = rt.no_unknown; cached_size = 0 }, s)

  unfoldable pub default_instance :
      Lazy (HelloReply rt) → Outcome (HelloReply rt × Lazy (HelloReply rt))
  default_instance instance_lazy = do
    (message, instance_lazy', _) ← rx.get instance_lazy make_instance tt
    returns (message, instance_lazy')

  -- The closure of `descriptor_static`, which uses the static of the file.
  abbrev pub make_descriptor :
      Lazy FileDescriptorProto → Outcome (MessageDescriptor × Lazy FileDescriptorProto)
  make_descriptor file_lazy = do
    let fields =
        rx.make_singular_string_accessor (ascii "message") (has_message rt) (get_message rt) ∷ []
    (file, file_lazy') ← file_descriptor_proto rx file_lazy
    descriptor ← rx.message_descriptor (ascii "HelloReply") fields file
    returns (descriptor, file_lazy')

  unfoldable pub descriptor_static :
      Lazy MessageDescriptor
      → Lazy FileDescriptorProto
      → Outcome (MessageDescriptor × Lazy MessageDescriptor × Lazy FileDescriptorProto)
  descriptor_static descriptor file_lazy = rx.get descriptor make_descriptor file_lazy
