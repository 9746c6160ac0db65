-- ===== src/Codegen/Services.antt =====
-- `ServiceGen` of src/codegen.rs: the interfaces, the clients and the server of one service.
use Prim.Native.String.{◌++◌}
use grpc_rust.Prelude.{ℕ, suc, List, [], ◌∷◌, map, String, ◌==◌, if◌then◌else◌}
use grpc_rust.Outcome.{returns}
use grpc_rust.Codegen.Protobuf.{ServiceDescriptorProto, FileDescriptorProto, Write, Protobuf, ◌>>◌}
use grpc_rust.Codegen.Methods
use grpc_rust.Codegen.Methods.{MethodGen, write_method_descriptor}

pub record ServiceGen : Type 0 where
  pub proto : ServiceDescriptorProto
  pub root_scope : List FileDescriptorProto
  pub methods : List MethodGen
  pub service_path : String
  pub package_name : String

-- `ServiceGen::new`
unfoldable pub service_gen :
    ServiceDescriptorProto → FileDescriptorProto → List FileDescriptorProto → ServiceGen
service_gen proto file root_scope =
    let service_path : String = "/" ++ file.package_name ++ "." ++ proto.name in
    record {
      proto = proto;
      root_scope = root_scope;
      methods =
          map (λ m. record { proto = m; service_path = service_path; root_scope = root_scope })
            proto.methods;
      service_path = service_path;
      package_name = file.package_name;
    }

abbrev pub sync_intf_name : ServiceGen → String
sync_intf_name self = self.proto.name

abbrev pub async_intf_name : ServiceGen → String
async_intf_name self = sync_intf_name self ++ "Async"

abbrev pub sync_client_name : ServiceGen → String
sync_client_name self = sync_intf_name self ++ "Client"

abbrev pub sync_server_name : ServiceGen → String
sync_server_name self = sync_intf_name self ++ "Server"

abbrev pub async_client_name : ServiceGen → String
async_client_name self = async_intf_name self ++ "Client"

abbrev pub async_server_name : ServiceGen → String
async_server_name self = async_intf_name self ++ "Server"

skip : {W : Type 0} → Write W
skip w = returns w

module _ (pb : Protobuf) where
  open pb use {
    Writer, write_line, comment, field_entry, field_decl, pub_fn, block, expr_block, pub_trait,
    pub_struct, impl_self_block, impl_for_block,
  }

  -- `for (i, method) in self.methods.iter().enumerate()` with a blank line between two methods.
  unfoldable pub each_method : ℕ → (MethodGen → Write Writer) → List MethodGen → Write Writer
  unfolding skip
  each_method i body [] = skip
  each_method i body (m ∷ rest) = do
    (if i == 0 then skip else write_line "")
    body m
    each_method (suc i) body rest

  unfoldable pub write_sync_intf : ServiceGen → Write Writer
  write_sync_intf self =
      pub_trait (sync_intf_name self) (each_method 0 (Methods.write_sync_intf pb) self.methods)

  unfoldable pub write_async_intf : ServiceGen → Write Writer
  write_async_intf self =
      pub_trait (async_intf_name self) (each_method 0 (Methods.write_async_intf pb) self.methods)

  unfoldable pub write_sync_client : ServiceGen → Write Writer
  write_sync_client self = do
    pub_struct (sync_client_name self)
        (field_decl "grpc_client" "::std::cell::RefCell<::grpc::client::GrpcClient>")
    write_line ""
    impl_self_block (sync_client_name self) (
        pub_fn "new(host: &str, port: u16) -> Self" (
          expr_block (sync_client_name self) (
            field_entry "grpc_client"
              "::std::cell::RefCell::new(::grpc::client::GrpcClient::new(host, port))")))
    write_line ""
    impl_for_block (sync_intf_name self) (sync_client_name self)
        (each_method 0 (Methods.write_sync_client pb) self.methods)

  unfoldable pub write_async_client : ServiceGen → Write Writer
  write_async_client self = do
    pub_struct (async_client_name self)
        (field_decl "grpc_client_async" "::grpc::client_async::GrpcClientAsync")
    write_line ""
    impl_self_block (async_client_name self) (
        pub_fn "new(host: &str, port: u16) -> Self" (
          expr_block (async_client_name self) (
            field_entry "grpc_client_async"
              "::grpc::client_async::GrpcClientAsync::new(host, port)")))
    write_line ""
    impl_for_block (async_intf_name self) (async_client_name self)
        (each_method 0 (Methods.write_async_client pb) self.methods)

  -- The registration of one method in the server's definition.
  unfoldable pub register : MethodGen → Write Writer
  register method = block "::grpc::method::ServerMethod::new(" ")," do
    write_method_descriptor pb method "" ","
    block "{" "}," do
      write_line "let handler_copy = handler_arc.clone();"
      write_line (
          "::grpc::method::MethodHandlerFn::new(move |p| handler_copy." ++ method.proto.name
          ++ "(p))")

  unfoldable pub register_all : List MethodGen → Write Writer
  unfolding skip
  register_all [] = skip
  register_all (m ∷ rest) = do register m; register_all rest

  unfoldable pub write_server : ServiceGen → Write Writer
  write_server self = do
    pub_struct (sync_server_name self) (field_decl "server" "::grpc::server::GrpcServer")
    write_line ""
    impl_self_block (sync_server_name self) do
      pub_fn
          ("new<H : "
            ++ sync_intf_name self
            ++ " + 'static + Sync + Send>(h: H) -> "
            ++ sync_server_name self)
          do
            write_line "let handler_arc = ::std::sync::Arc::new(h);"
            block
                "let service_definition = ::std::sync::Arc::new(::grpc::method::ServerServiceDefinition::new("
                "));" (block "vec![" "]," (register_all self.methods))
            expr_block (sync_server_name self)
                (field_entry "server" "::grpc::server::GrpcServer::new(service_definition)")
      write_line ""
      pub_fn "run(&mut self)" (write_line "self.server.run()")

  unfoldable pub write : ServiceGen → Write Writer
  write self = do
    comment "interface"
    write_line ""
    write_sync_intf self
    write_line ""
    write_async_intf self
    write_line ""
    comment "sync client"
    write_line ""
    write_sync_client self
    write_line ""
    comment "async client"
    write_line ""
    write_async_client self
    write_line ""
    comment "sync server"
    write_line ""
    write_server self
