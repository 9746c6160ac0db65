-- ===== src/Helloworld/Programs.antt =====
-- The programs grpc-examples/src/bin/greeter_server.rs and grpc-examples/src/bin/greeter_client.rs,
-- and src/bin/temp-server.rs, but for their sockets and their console.
use grpc_rust.Prelude.{ℕ, false, Option, List, [], ◌∷◌, ◌++◌, Bytes, ascii}
use grpc_rust.Outcome.{Outcome, returns, ◌>>=◌}
use grpc_rust.Grpc.Word.{Endian}
use grpc_rust.Marshall.{marshaller_bytes}
use grpc_rust.Method.{MethodDescriptor, ServerServiceDefinition, server_method, method_handler_echo}
use grpc_rust.Solicit.{Solicit}
use grpc_rust.Server.Connection.{ServerHttp}
use grpc_rust.Server.Accept.{Thread, ServerEvent, grpc_server, run}
use grpc_rust.Client.Call.{ClientHttp}
use grpc_rust.Helloworld.Runtime.{Runtime}
use grpc_rust.Helloworld.Request
use grpc_rust.Helloworld.Request.{HelloRequest}
use grpc_rust.Helloworld.Reply
use grpc_rust.Helloworld.Reply.{HelloReply}
use grpc_rust.Helloworld.Greeter.{
  Greeter, GreeterClient, new, say_hello, greeter_server, run_server,
}

-- The second argument of the command line, or the default.
unfoldable pub name_of_args : List Bytes → Bytes
name_of_args [] = ascii "world"
name_of_args (program ∷ []) = ascii "world"
name_of_args (program ∷ name ∷ rest) = name

-- The name that is greeted.
unfoldable pub greeted : Bytes → Bytes
greeted [] = ascii "world"
greeted (b ∷ bs) = b ∷ bs

module _ (rt : Runtime) where
  -- `GreeterImpl`
  unfoldable pub greeter_impl : Greeter rt
  greeter_impl = record {
    say_hello = λ req.
        returns (
          Reply.set_message rt (ascii "Hello " ++ greeted (Request.get_name rt req))
            (Reply.new rt));
  }

  -- `main` of the client: the reply that it prints. `connect` opens a connection.
  unfoldable pub client_main :
      {http : Solicit} (api : ClientHttp http)
      → (Bytes → ℕ → Option api.Conn)
      → ℕ
      → Endian
      → List Bytes
      → Outcome (HelloReply rt × GreeterClient rt api)
  client_main api connect fuel endian args = do
    let name = name_of_args args
    client ← new rt api connect (ascii "localhost") 50051
    let req = Request.set_name rt name (Request.new rt)
    say_hello rt api fuel endian client req

  -- `main` of the server, on the result of binding its address, as far as these events go.
  unfoldable pub server_main :
      {http : Solicit} (api : ServerHttp http) (attach : api.Conn → Bytes → api.Conn)
      → ℕ
      → Option (Unit {0})
      → List ServerEvent
      → Outcome (List (Thread api attach))
  unfolding greeter_impl
  server_main api attach fuel bound events = greeter_server rt bound greeter_impl >>= λ server.
      run_server rt api attach fuel server events []

-- The service of src/bin/temp-server.rs.
unfoldable pub temp_method : MethodDescriptor Bytes Bytes
temp_method = record {
  name = ascii "/helloworld.Greeter/SayHello";
  client_streaming = false;
  server_streaming = false;
  req_marshaller = marshaller_bytes;
  resp_marshaller = marshaller_bytes;
}

unfoldable pub temp_service : ServerServiceDefinition
temp_service = record { methods = server_method temp_method method_handler_echo ∷ [] }

-- `main` of src/bin/temp-server.rs.
unfoldable pub temp_main :
    {http : Solicit} (api : ServerHttp http) (attach : api.Conn → Bytes → api.Conn)
    → ℕ
    → Option (Unit {0})
    → List ServerEvent
    → Outcome (List (Thread api attach))
unfolding temp_service
temp_main api attach fuel bound events =
    grpc_server bound temp_service >>= λ server. run api attach fuel server events []
