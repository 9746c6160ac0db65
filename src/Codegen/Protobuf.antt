-- ===== src/Codegen/Protobuf.antt =====
-- What src/codegen.rs uses of the `protobuf` crate, which is not in the repository: the descriptors
-- that protoc hands over, the lookup of a message type, and the `CodeWriter`.
use grpc_rust.Prelude.{Bool, List, String, Bytes}
use grpc_rust.Outcome.{Outcome, ◌>>=◌ as bind}

-- The parts of the descriptors that are read.
pub record MethodDescriptorProto : Type 0 where
  pub name : String
  pub input_type : String
  pub output_type : String
  pub client_streaming : Bool
  pub server_streaming : Bool

pub record ServiceDescriptorProto : Type 0 where
  pub name : String
  pub methods : List MethodDescriptorProto

pub record FileDescriptorProto : Type 0 where
  pub name : String
  pub package_name : String
  pub services : List ServiceDescriptorProto

-- A statement that writes to the code writer, which may panic (a message type that is not found).
abbrev pub Write : Type 0 → Type 0
Write W = W → Outcome W

-- The statements of `CodeWriter` that are called. Those that take a closure run it between what they
-- write before and after it. `find_message` is the lookup in the root scope over all files, with the
-- message's `rust_fq_name`; it panics on a name that no file has.
pub record Protobuf : Type 1 where
  pub Writer : Type 0
  pub new_writer : Writer
  pub content : Writer → Bytes
  pub write_generated : Write Writer
  pub write_line : String → Write Writer
  pub comment : String → Write Writer
  pub fn_def : String → Write Writer
  pub field_entry : String → String → Write Writer
  pub field_decl : String → String → Write Writer
  pub def_fn : String → Write Writer → Write Writer
  pub pub_fn : String → Write Writer → Write Writer
  pub block : String → String → Write Writer → Write Writer
  pub expr_block : String → Write Writer → Write Writer
  pub pub_trait : String → Write Writer → Write Writer
  pub pub_struct : String → Write Writer → Write Writer
  pub impl_self_block : String → Write Writer → Write Writer
  pub impl_for_block : String → String → Write Writer → Write Writer
  pub find_message : List FileDescriptorProto → String → Outcome String
  pub proto_path_to_rust_mod : String → String

-- One statement after the other, and a value that may panic before a statement.
infixl 5 ◌>>=◌ ◌>>◌
unfoldable pub ◌>>=◌ : {A W : Type 0} → Outcome A → (A → Write W) → Write W
◌>>=◌ m f w = bind m (λ a. f a w)

unfoldable pub ◌>>◌ : {W : Type 0} → Write W → Write W → Write W
◌>>◌ a b w = bind (a w) b
