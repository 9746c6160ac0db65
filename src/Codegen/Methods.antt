-- ===== src/Codegen/Methods.antt =====
-- `MethodGen` of src/codegen.rs: the code of one method.
use Prim.Native.String.{◌++◌}
use grpc_rust.Prelude.{Bool, List, String, if◌then◌else◌}
use grpc_rust.Outcome.{Outcome, returns, ◌>>=◌ as bind}
use grpc_rust.Codegen.Protobuf.{
  MethodDescriptorProto, FileDescriptorProto, Write, Protobuf, ◌>>=◌, ◌>>◌,
}

pub record MethodGen : Type 0 where
  pub proto : MethodDescriptorProto
  pub service_path : String
  pub root_scope : List FileDescriptorProto

-- The value of the `name` field: what the client sends as `:path` and the server looks up.
abbrev pub method_path : MethodGen → String
method_path self = self.service_path ++ "/" ++ self.proto.name

-- As the format string writes it, between quotes.
abbrev pub name_entry : MethodGen → String
name_entry self = "\"" ++ self.service_path ++ "/" ++ self.proto.name ++ "\".to_string()"

abbrev pub bool_entry : Bool → String
bool_entry b = if b then "true" else "false"

module _ (pb : Protobuf) where
  open pb use {Writer, find_message, field_entry, block, write_line, fn_def, def_fn}

  unfoldable pub input : MethodGen → Outcome String
  input self =
      bind (find_message self.root_scope self.proto.input_type) λ t. returns ("super::" ++ t)

  unfoldable pub output : MethodGen → Outcome String
  output self =
      bind (find_message self.root_scope self.proto.output_type) λ t. returns ("super::" ++ t)

  unfoldable pub sync_sig : MethodGen → Outcome String
  unfolding input output
  sync_sig self =
      bind (input self)
        λ i. bind (output self) λ o. returns (self.proto.name ++ "(&self, p: " ++ i ++ ") -> " ++ o)

  unfoldable pub async_sig : MethodGen → Outcome String
  unfolding input output
  async_sig self = bind (input self) λ i. bind (output self) λ o. returns (
      self.proto.name ++ "(&self, p: " ++ i ++ ") -> ::grpc::futures_grpc::GrpcFuture<" ++ o ++ ">")

  unfoldable pub write_sync_intf : MethodGen → Write Writer
  unfolding sync_sig
  write_sync_intf self = do sig ← sync_sig self; fn_def sig

  unfoldable pub write_async_intf : MethodGen → Write Writer
  unfolding async_sig
  write_async_intf self = do sig ← async_sig self; fn_def sig

  unfoldable pub write_method_descriptor : MethodGen → String → String → Write Writer
  write_method_descriptor self before after =
      block (before ++ "::grpc::method::MethodDescriptor {") ("}" ++ after) do
        field_entry "name" (name_entry self)
        field_entry "client_streaming" (bool_entry self.proto.client_streaming)
        field_entry "server_streaming" (bool_entry self.proto.server_streaming)
        field_entry "req_marshaller" "Box::new(::grpc::grpc_protobuf::MarshallerProtobuf)"
        field_entry "resp_marshaller" "Box::new(::grpc::grpc_protobuf::MarshallerProtobuf)"

  -- The body of a client's method; the two look-ups before it are used by nothing, and may panic.
  unfoldable pub write_client : MethodGen → Outcome String → String → Write Writer
  unfolding input output write_method_descriptor
  write_client self signature call = do
    unused_input ← find_message self.root_scope self.proto.input_type
    unused_output ← find_message self.root_scope self.proto.output_type
    sig ← signature
    def_fn sig do
      i ← input self
      o ← output self
      write_method_descriptor self
          ("let method: ::grpc::method::MethodDescriptor<" ++ i ++ ", " ++ o ++ "> = ") ";"
      write_line call

  unfoldable pub write_sync_client : MethodGen → Write Writer
  unfolding write_client sync_sig
  write_sync_client self =
      write_client self (sync_sig self) "self.grpc_client.borrow_mut().call(p, method)"

  unfoldable pub write_async_client : MethodGen → Write Writer
  unfolding write_client async_sig
  write_async_client self =
      write_client self (async_sig self) "self.grpc_client_async.call(p, method)"
