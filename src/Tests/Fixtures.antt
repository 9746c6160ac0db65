-- ===== src/Tests/Fixtures.antt =====
-- Small stand-ins for what the repository does not hold, and the service of src/bin/temp-server.rs.
use grpc_rust.Prelude.{ℕ, false, none, some, [], ◌∷◌, Bytes, ascii, ◌==◌, ◌||◌}
use grpc_rust.Marshall.{marshaller_bytes}
use grpc_rust.Method.{
  MethodDescriptor, ServerMethod, ServerServiceDefinition, server_method, method_handler_echo,
}
use grpc_rust.Solicit.{Solicit}
use grpc_rust.Server.Stream.{GrpcStream}

-- States: 0 is open, 1 closed locally, 2 closed remotely, 3 closed.
abbrev pub toy_http : Solicit
toy_http = record {
  HttpError = ℕ;
  unknown_stream_id = 404;
  StreamState = ℕ;
  open_state = 0;
  is_closed_local = λ s. (s == 1) || (s == 3);
  is_closed = λ s. s == 3;
  close_local = λ s. 1;
  Header = Bytes × Bytes;
  header = λ n v. (n, v);
  header_name = λ h. h.0;
  header_value = λ h. h.1;
  to_owned = λ h. h;
}

abbrev pub say_hello : Bytes
say_hello = ascii "/helloworld.Greeter/SayHello"

abbrev pub echo_descriptor : MethodDescriptor Bytes Bytes
echo_descriptor = record {
  name = say_hello;
  client_streaming = false;
  server_streaming = false;
  req_marshaller = marshaller_bytes;
  resp_marshaller = marshaller_bytes;
}

abbrev pub echo_method : ServerMethod
echo_method = server_method echo_descriptor method_handler_echo

abbrev pub echo_service : ServerServiceDefinition
echo_service = record { methods = echo_method ∷ [] }

-- A stream whose headers have been read.
abbrev pub echo_stream : GrpcStream toy_http
echo_stream = record {
  stream_id = some 1;
  headers = some [];
  body = [];
  state = 0;
  cursor = none;
  req_buf = [];
  resp_buf = [];
  service_definition = echo_service;
  path = say_hello;
}
