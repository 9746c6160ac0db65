-- ===== src/Tests/Golden.antt =====
-- The model's output for grpc-examples/helloworld.proto against the checked-in generated file.
use grpc_rust.Prelude.{◌≡◌, refl, List, [], ◌∷◌, String}
use grpc_rust.Outcome.{Outcome, returns}
use grpc_rust.Codegen.Protobuf.{◌>>=◌, ◌>>◌}
use grpc_rust.Codegen.Methods.{
  MethodGen, method_path, input, output, sync_sig, async_sig, write_client, write_method_descriptor,
}
use grpc_rust.Codegen.Methods
use grpc_rust.Codegen.Services
use grpc_rust.Codegen.Services.{ServiceGen, service_gen}
use grpc_rust.Tests.Printing.{Printer, printing, greeter, helloworld}

-- grpc-examples/src/helloworld_grpc.rs behind its header.
abbrev helloworld_grpc : List String
helloworld_grpc =
    "// interface" ∷ "" ∷ "pub trait Greeter {"
    ∷ "    fn SayHello(&self, p: super::helloworld::HelloRequest) -> super::helloworld::HelloReply;"
    ∷ "}" ∷ "" ∷ "pub trait GreeterAsync {"
    ∷ "    fn SayHello(&self, p: super::helloworld::HelloRequest) -> ::grpc::futures_grpc::GrpcFuture<super::helloworld::HelloReply>;"
    ∷ "}" ∷ "" ∷ "// sync client" ∷ "" ∷ "pub struct GreeterClient {"
    ∷ "    grpc_client: ::std::cell::RefCell<::grpc::client::GrpcClient>," ∷ "}" ∷ ""
    ∷ "impl GreeterClient {" ∷ "    pub fn new(host: &str, port: u16) -> Self {"
    ∷ "        GreeterClient {"
    ∷ "            grpc_client: ::std::cell::RefCell::new(::grpc::client::GrpcClient::new(host, port)),"
    ∷ "        }" ∷ "    }" ∷ "}" ∷ "" ∷ "impl Greeter for GreeterClient {"
    ∷ "    fn SayHello(&self, p: super::helloworld::HelloRequest) -> super::helloworld::HelloReply {"
    ∷ "        let method: ::grpc::method::MethodDescriptor<super::helloworld::HelloRequest, super::helloworld::HelloReply> = ::grpc::method::MethodDescriptor {"
    ∷ "            name: \"/helloworld.Greeter/SayHello\".to_string(),"
    ∷ "            client_streaming: false," ∷ "            server_streaming: false,"
    ∷ "            req_marshaller: Box::new(::grpc::grpc_protobuf::MarshallerProtobuf),"
    ∷ "            resp_marshaller: Box::new(::grpc::grpc_protobuf::MarshallerProtobuf),"
    ∷ "        };" ∷ "        self.grpc_client.borrow_mut().call(p, method)" ∷ "    }" ∷ "}" ∷ ""
    ∷ "// async client" ∷ "" ∷ "pub struct GreeterAsyncClient {"
    ∷ "    grpc_client_async: ::grpc::client_async::GrpcClientAsync," ∷ "}" ∷ ""
    ∷ "impl GreeterAsyncClient {" ∷ "    pub fn new(host: &str, port: u16) -> Self {"
    ∷ "        GreeterAsyncClient {"
    ∷ "            grpc_client_async: ::grpc::client_async::GrpcClientAsync::new(host, port),"
    ∷ "        }" ∷ "    }" ∷ "}" ∷ "" ∷ "impl GreeterAsync for GreeterAsyncClient {"
    ∷ "    fn SayHello(&self, p: super::helloworld::HelloRequest) -> ::grpc::futures_grpc::GrpcFuture<super::helloworld::HelloReply> {"
    ∷ "        let method: ::grpc::method::MethodDescriptor<super::helloworld::HelloRequest, super::helloworld::HelloReply> = ::grpc::method::MethodDescriptor {"
    ∷ "            name: \"/helloworld.Greeter/SayHello\".to_string(),"
    ∷ "            client_streaming: false," ∷ "            server_streaming: false,"
    ∷ "            req_marshaller: Box::new(::grpc::grpc_protobuf::MarshallerProtobuf),"
    ∷ "            resp_marshaller: Box::new(::grpc::grpc_protobuf::MarshallerProtobuf),"
    ∷ "        };" ∷ "        self.grpc_client_async.call(p, method)" ∷ "    }" ∷ "}" ∷ ""
    ∷ "// sync server" ∷ "" ∷ "pub struct GreeterServer {"
    ∷ "    server: ::grpc::server::GrpcServer," ∷ "}" ∷ "" ∷ "impl GreeterServer {"
    ∷ "    pub fn new<H : Greeter + 'static + Sync + Send>(h: H) -> GreeterServer {"
    ∷ "        let handler_arc = ::std::sync::Arc::new(h);"
    ∷ "        let service_definition = ::std::sync::Arc::new(::grpc::method::ServerServiceDefinition::new("
    ∷ "            vec![" ∷ "                ::grpc::method::ServerMethod::new("
    ∷ "                    ::grpc::method::MethodDescriptor {"
    ∷ "                        name: \"/helloworld.Greeter/SayHello\".to_string(),"
    ∷ "                        client_streaming: false,"
    ∷ "                        server_streaming: false,"
    ∷ "                        req_marshaller: Box::new(::grpc::grpc_protobuf::MarshallerProtobuf),"
    ∷ "                        resp_marshaller: Box::new(::grpc::grpc_protobuf::MarshallerProtobuf),"
    ∷ "                    }," ∷ "                    {"
    ∷ "                        let handler_copy = handler_arc.clone();"
    ∷ "                        ::grpc::method::MethodHandlerFn::new(move |p| handler_copy.SayHello(p))"
    ∷ "                    }," ∷ "                )," ∷ "            ]," ∷ "        ));"
    ∷ "        GreeterServer {"
    ∷ "            server: ::grpc::server::GrpcServer::new(service_definition)," ∷ "        }"
    ∷ "    }" ∷ "" ∷ "    pub fn run(&mut self) {" ∷ "        self.server.run()" ∷ "    }" ∷ "}"
    ∷ []

abbrev lines_of : Outcome Printer → List String
lines_of (returns w) = w.lines
lines_of _ = []

generated_greeter :
    lines_of (
      Services.write printing
        (service_gen greeter helloworld (helloworld ∷ []))
        printing.new_writer)
    ≡ helloworld_grpc
unfolding Services.write Services.write_sync_intf Services.write_async_intf
    Services.write_sync_client Services.write_async_client Services.write_server
    Services.each_method Services.register_all Services.register Methods.write_sync_intf
    Methods.write_async_intf Methods.write_sync_client Methods.write_async_client
    write_method_descriptor service_gen ◌>>=◌ ◌>>◌
generated_greeter = refl
