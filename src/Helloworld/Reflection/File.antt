-- ===== src/Helloworld/Reflection/File.antt =====
-- What the embedded descriptor of grpc-examples/src/helloworld.rs says.
use grpc_rust.Prelude.{◌≡◌, refl, some, [], ◌∷◌, ascii}
use grpc_rust.Helloworld.Reflection.Data.{file_descriptor_proto_data}
use grpc_rust.Helloworld.Reflection.Wire.{File, MessageType, Field, described}

-- The messages of grpc-examples/helloworld.proto; 9 is `TYPE_STRING`.
abbrev pub request_field : Field
request_field = record { name = ascii "name"; field_number = 1; field_type = 9 }

abbrev pub request_type : MessageType
request_type = record { name = ascii "HelloRequest"; fields = request_field ∷ [] }

abbrev pub reply_field : Field
reply_field = record { name = ascii "message"; field_number = 1; field_type = 9 }

abbrev pub reply_type : MessageType
reply_type = record { name = ascii "HelloReply"; fields = reply_field ∷ [] }

-- The file.
abbrev pub helloworld_proto : File
helloworld_proto = record {
  name = ascii "helloworld.proto";
  package_name = ascii "helloworld";
  message_types = request_type ∷ reply_type ∷ [];
  services =
      record {
        name = ascii "Greeter";
        methods =
            record {
              name = ascii "SayHello";
              input_type = ascii ".helloworld.HelloRequest";
              output_type = ascii ".helloworld.HelloReply";
              client_streaming = 0;
              server_streaming = 0;
            }
            ∷ [];
      }
      ∷ [];
}

-- The embedded bytes are the descriptor of helloworld.proto.
pub described_lem : described file_descriptor_proto_data ≡ some helloworld_proto
unfolding described file_descriptor_proto_data
described_lem = refl
