-- ===== src/Helloworld/Reflection/Embedded.antt =====
-- The embedded file descriptor of grpc-examples/src/helloworld.rs and the static that keeps it parsed.
use grpc_rust.Outcome.{Outcome, returns, ◌>>=◌, expect, unwrap_err}
use grpc_rust.Helloworld.Reflection.Data.{file_descriptor_proto_data}
use grpc_rust.Helloworld.Reflection.Runtime.{ReflectionRuntime}

module _ (rx : ReflectionRuntime) where
  open rx use {Lazy, FileDescriptorProto}

  unfoldable pub parse_descriptor_proto : Outcome FileDescriptorProto
  parse_descriptor_proto = expect (rx.parse_from_bytes file_descriptor_proto_data) unwrap_err

  unfoldable pub file_descriptor_proto :
      Lazy FileDescriptorProto → Outcome (FileDescriptorProto × Lazy FileDescriptorProto)
  unfolding parse_descriptor_proto
  file_descriptor_proto file_lazy = do
    (d, file_lazy', _) ← rx.get file_lazy (λ s. parse_descriptor_proto >>= λ d. returns (d, s)) tt
    returns (d, file_lazy')
