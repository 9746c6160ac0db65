-- ===== src/Helloworld/Reflection/Follows.antt =====
-- The generated code of grpc-examples/src/, its messages and its service, against the descriptor that
-- helloworld.rs embeds.
use grpc_rust.Prelude.{
  ◌≡◌, refl, Bool, Option, none, some, List, [], ◌∷◌, ◌++◌, map, concat, Bytes, ascii, ltb,
}
use grpc_rust.Method.{MethodDescriptor, server_method, ServerMethod}
use grpc_rust.Helloworld.Runtime.{Runtime}
use grpc_rust.Helloworld.Greeter.{
  Greeter, client_method, async_method, registered_method, service_definition,
}
use grpc_rust.Helloworld.Reflection.Data.{file_descriptor_proto_data}
use grpc_rust.Helloworld.Reflection.Wire.{File, Service, Method, described}
use grpc_rust.Helloworld.Reflection.File.{described_lem}
use grpc_rust.Helloworld.Reflection.Declared.{RequestFollows, ReplyFollows, messages_follow}

-- A method as the gRPC protocol addresses it, by its path, with its two streaming flags.
abbrev Route : Type 0
Route = Bytes × Bool × Bool

abbrev route : Bytes → Bytes → Method → Route
route package_name service m = (
  ascii "/" ++ package_name ++ ascii "." ++ service ++ ascii "/" ++ m.name,
  ltb 0 m.client_streaming,
  ltb 0 m.server_streaming,
)

abbrev routes : Option File → List Route
routes none = []
routes (some file) =
    concat (map (λ (s : Service). map (route file.package_name s.name) s.methods) file.services)

-- The methods that the embedded bytes declare, in their order.
abbrev pub declared_routes : List Route
declared_routes = routes (described file_descriptor_proto_data)

abbrev route_of : {Req Resp : Type 0} → MethodDescriptor Req Resp → Route
route_of m = (m.name, m.client_streaming, m.server_streaming)

module _ (rt : Runtime) where
  -- The synchronous client, the asynchronous one and the server have the declared methods.
  pub record ServiceFollows (h : Greeter rt) : Type 0 where
    pub client : route_of (client_method rt) ∷ [] ≡ declared_routes
    pub async_client : route_of (async_method rt) ∷ [] ≡ declared_routes
    pub server : route_of (registered_method rt) ∷ [] ≡ declared_routes
    pub dispatch :
        map (λ (m : ServerMethod). m.name) (service_definition rt h).methods
        ≡ map (λ (r : Route). r.0) declared_routes

  service-ServiceFollows : (h : Greeter rt) → ServiceFollows h
  unfolding client_method async_method registered_method service_definition server_method
  service-ServiceFollows h = record {
    client = rw described_lem refl;
    async_client = rw described_lem refl;
    server = rw described_lem refl;
    dispatch = rw described_lem refl;
  }

  -- The generated code follows the descriptor that helloworld.rs embeds. For every field number, wire
  -- type, input, output and value, the parsers and the writers of both messages agree with it on the
  -- numbers and the names of the fields, and on what is unknown. Both clients and the server, with any
  -- implementation, have the methods that it declares, under their gRPC paths and with their streaming
  -- flags.
  pub example_follows : (h : Greeter rt) → RequestFollows rt × ReplyFollows rt × ServiceFollows h
  example_follows h =
      let (request, reply) = messages_follow rt in (request, reply, service-ServiceFollows h)
