-- ===== src/Helloworld/Greeter.antt =====
-- grpc-examples/src/helloworld_grpc.rs: the clients and the server of the service `Greeter`, as
-- src/codegen.rs generates them. A `RefCell` that is borrowed for one call at a time is its content.
use grpc_rust.Prelude.{ℕ, Option, List, Bytes, false, [], ◌∷◌, ascii}
use grpc_rust.Outcome.{Outcome, returns, ◌>>=◌}
use grpc_rust.Grpc.Word.{Endian}
use grpc_rust.Marshall.{marshaller_protobuf}
use grpc_rust.Method.{MethodDescriptor, ServerServiceDefinition, server_method, method_handler_fn}
use grpc_rust.Solicit.{Solicit}
use grpc_rust.Server.Connection.{ServerHttp}
use grpc_rust.Server.Accept.{GrpcServer, Thread, ServerEvent, grpc_server, run}
use grpc_rust.ChannelSyncSender.{Channel}
use grpc_rust.ClientAsync
use grpc_rust.ClientAsync.{GrpcClientAsync, Oneshots, Item}
use grpc_rust.Client.Call
use grpc_rust.Client.Call.{ClientHttp, GrpcClient, call}
use grpc_rust.Helloworld.Runtime.{Runtime}
use grpc_rust.Helloworld.Request
use grpc_rust.Helloworld.Request.{HelloRequest}
use grpc_rust.Helloworld.Reply
use grpc_rust.Helloworld.Reply.{HelloReply}

module _ (rt : Runtime) where
  -- The trait; an implementation may panic.
  pub record Greeter : Type 0 where
    pub say_hello : HelloRequest rt → Outcome (HelloReply rt)

  -- The descriptor that `GreeterClient::SayHello` makes.
  unfoldable pub client_method : MethodDescriptor (HelloRequest rt) (HelloReply rt)
  client_method = record {
    name = ascii "/helloworld.Greeter/SayHello";
    client_streaming = false;
    server_streaming = false;
    req_marshaller = marshaller_protobuf (Request.message rt);
    resp_marshaller = marshaller_protobuf (Reply.message rt);
  }

  -- The descriptor that `GreeterServer::new` registers.
  unfoldable pub registered_method : MethodDescriptor (HelloRequest rt) (HelloReply rt)
  registered_method = record {
    name = ascii "/helloworld.Greeter/SayHello";
    client_streaming = false;
    server_streaming = false;
    req_marshaller = marshaller_protobuf (Request.message rt);
    resp_marshaller = marshaller_protobuf (Reply.message rt);
  }

  -- The service definition of `GreeterServer::new`.
  unfoldable pub service_definition : Greeter → ServerServiceDefinition
  service_definition h = record {
    methods = server_method registered_method (method_handler_fn (λ p. h.say_hello p)) ∷ [];
  }

  pub record GreeterServer : Type 0 where
    pub server : GrpcServer

  -- `GreeterServer::new`
  unfoldable pub greeter_server : Option (Unit {0}) → Greeter → Outcome GreeterServer
  unfolding grpc_server service_definition
  greeter_server bound h =
      grpc_server bound (service_definition h) >>= λ server. returns (record { server = server })

  -- `GreeterServer::run`
  unfoldable pub run_server :
      {http : Solicit} (api : ServerHttp http) (attach : api.Conn → Bytes → api.Conn)
      → ℕ
      → GreeterServer
      → List ServerEvent
      → List (Thread api attach)
      → Outcome (List (Thread api attach))
  run_server api attach fuel self events threads = run api attach fuel self.server events threads

  module _ {http : Solicit} (api : ClientHttp http) where
    pub record GreeterClient : Type 0 where
      pub grpc_client : GrpcClient api

    -- `GreeterClient::new`
    unfoldable pub new : (Bytes → ℕ → Option api.Conn) → Bytes → ℕ → Outcome GreeterClient
    new connect host port =
        Call.new api connect host port >>= λ client. returns (record { grpc_client = client })

    -- `GreeterClient::SayHello`
    unfoldable pub say_hello :
        ℕ → Endian → GreeterClient → HelloRequest rt → Outcome (HelloReply rt × GreeterClient)
    say_hello fuel endian self p =
        call api fuel endian self.grpc_client p client_method >>= λ (resp, grpc_client).
        returns (resp, record { grpc_client = grpc_client })

  -- The descriptor that `GreeterAsyncClient::SayHello` makes.
  unfoldable pub async_method : MethodDescriptor (HelloRequest rt) (HelloReply rt)
  async_method = record {
    name = ascii "/helloworld.Greeter/SayHello";
    client_streaming = false;
    server_streaming = false;
    req_marshaller = marshaller_protobuf (Request.message rt);
    resp_marshaller = marshaller_protobuf (Reply.message rt);
  }

  module _ {IoError : Type 0} (channel : Channel (Item IoError)) where
    pub record GreeterAsyncClient : Type 0 where
      pub grpc_client_async : GrpcClientAsync channel

    -- `GreeterAsyncClient::new`, with the address that the thread of the event loop is given.
    unfoldable pub new_async :
        {Addr : Type 0}
        → (Bytes → ℕ → Option (List Addr))
        → channel.Sender
        → Bytes
        → ℕ
        → Outcome (GreeterAsyncClient × Addr)
    new_async resolve sender host port =
        ClientAsync.new channel resolve sender host port >>= λ (client, addr).
        returns (record { grpc_client_async = client }, addr)

    -- `GreeterAsyncClient::SayHello`
    unfoldable pub say_hello_async :
        (oneshots : Oneshots (HelloReply rt))
        → GreeterAsyncClient
        → HelloRequest rt
        → GreeterAsyncClient × Outcome oneshots.Cell
    say_hello_async oneshots self p =
        let (client, future) =
          ClientAsync.call channel oneshots self.grpc_client_async p async_method in
        (record { grpc_client_async = client }, future)
