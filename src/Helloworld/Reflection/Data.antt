-- ===== src/Helloworld/Reflection/Data.antt =====
-- The descriptor of helloworld.proto that grpc-examples/src/helloworld.rs embeds, as its bytes.
use grpc_rust.Prelude.{[], ◌∷◌, Bytes}

unfoldable pub file_descriptor_proto_data : Bytes
file_descriptor_proto_data =
    0x0a ∷ 0x10 ∷ 0x68 ∷ 0x65 ∷ 0x6c ∷ 0x6c ∷ 0x6f ∷ 0x77 ∷ 0x6f ∷ 0x72 ∷ 0x6c ∷ 0x64 ∷ 0x2e ∷ 0x70
    ∷ 0x72 ∷ 0x6f ∷ 0x74 ∷ 0x6f ∷ 0x12 ∷ 0x0a ∷ 0x68 ∷ 0x65 ∷ 0x6c ∷ 0x6c ∷ 0x6f ∷ 0x77 ∷ 0x6f
    ∷ 0x72 ∷ 0x6c ∷ 0x64 ∷ 0x22 ∷ 0x22 ∷ 0x0a ∷ 0x0c ∷ 0x48 ∷ 0x65 ∷ 0x6c ∷ 0x6c ∷ 0x6f ∷ 0x52
    ∷ 0x65 ∷ 0x71 ∷ 0x75 ∷ 0x65 ∷ 0x73 ∷ 0x74 ∷ 0x12 ∷ 0x12 ∷ 0x0a ∷ 0x04 ∷ 0x6e ∷ 0x61 ∷ 0x6d
    ∷ 0x65 ∷ 0x18 ∷ 0x01 ∷ 0x20 ∷ 0x01 ∷ 0x28 ∷ 0x09 ∷ 0x52 ∷ 0x04 ∷ 0x6e ∷ 0x61 ∷ 0x6d ∷ 0x65
    ∷ 0x22 ∷ 0x26 ∷ 0x0a ∷ 0x0a ∷ 0x48 ∷ 0x65 ∷ 0x6c ∷ 0x6c ∷ 0x6f ∷ 0x52 ∷ 0x65 ∷ 0x70 ∷ 0x6c
    ∷ 0x79 ∷ 0x12 ∷ 0x18 ∷ 0x0a ∷ 0x07 ∷ 0x6d ∷ 0x65 ∷ 0x73 ∷ 0x73 ∷ 0x61 ∷ 0x67 ∷ 0x65 ∷ 0x18
    ∷ 0x01 ∷ 0x20 ∷ 0x01 ∷ 0x28 ∷ 0x09 ∷ 0x52 ∷ 0x07 ∷ 0x6d ∷ 0x65 ∷ 0x73 ∷ 0x73 ∷ 0x61 ∷ 0x67
    ∷ 0x65 ∷ 0x32 ∷ 0x49 ∷ 0x0a ∷ 0x07 ∷ 0x47 ∷ 0x72 ∷ 0x65 ∷ 0x65 ∷ 0x74 ∷ 0x65 ∷ 0x72 ∷ 0x12
    ∷ 0x3e ∷ 0x0a ∷ 0x08 ∷ 0x53 ∷ 0x61 ∷ 0x79 ∷ 0x48 ∷ 0x65 ∷ 0x6c ∷ 0x6c ∷ 0x6f ∷ 0x12 ∷ 0x18
    ∷ 0x2e ∷ 0x68 ∷ 0x65 ∷ 0x6c ∷ 0x6c ∷ 0x6f ∷ 0x77 ∷ 0x6f ∷ 0x72 ∷ 0x6c ∷ 0x64 ∷ 0x2e ∷ 0x48
    ∷ 0x65 ∷ 0x6c ∷ 0x6c ∷ 0x6f ∷ 0x52 ∷ 0x65 ∷ 0x71 ∷ 0x75 ∷ 0x65 ∷ 0x73 ∷ 0x74 ∷ 0x1a ∷ 0x16
    ∷ 0x2e ∷ 0x68 ∷ 0x65 ∷ 0x6c ∷ 0x6c ∷ 0x6f ∷ 0x77 ∷ 0x6f ∷ 0x72 ∷ 0x6c ∷ 0x64 ∷ 0x2e ∷ 0x48
    ∷ 0x65 ∷ 0x6c ∷ 0x6c ∷ 0x6f ∷ 0x52 ∷ 0x65 ∷ 0x70 ∷ 0x6c ∷ 0x79 ∷ 0x22 ∷ 0x00 ∷ 0x42 ∷ 0x36
    ∷ 0x0a ∷ 0x1b ∷ 0x69 ∷ 0x6f ∷ 0x2e ∷ 0x67 ∷ 0x72 ∷ 0x70 ∷ 0x63 ∷ 0x2e ∷ 0x65 ∷ 0x78 ∷ 0x61
    ∷ 0x6d ∷ 0x70 ∷ 0x6c ∷ 0x65 ∷ 0x73 ∷ 0x2e ∷ 0x68 ∷ 0x65 ∷ 0x6c ∷ 0x6c ∷ 0x6f ∷ 0x77 ∷ 0x6f
    ∷ 0x72 ∷ 0x6c ∷ 0x64 ∷ 0x42 ∷ 0x0f ∷ 0x48 ∷ 0x65 ∷ 0x6c ∷ 0x6c ∷ 0x6f ∷ 0x57 ∷ 0x6f ∷ 0x72
    ∷ 0x6c ∷ 0x64 ∷ 0x50 ∷ 0x72 ∷ 0x6f ∷ 0x74 ∷ 0x6f ∷ 0x50 ∷ 0x01 ∷ 0xa2 ∷ 0x02 ∷ 0x03 ∷ 0x48
    ∷ 0x4c ∷ 0x57 ∷ 0x4a ∷ 0xeb ∷ 0x11 ∷ 0x0a ∷ 0x06 ∷ 0x12 ∷ 0x04 ∷ 0x1d ∷ 0x00 ∷ 0x34 ∷ 0x01
    ∷ 0x0a ∷ 0xe7 ∷ 0x0b ∷ 0x0a ∷ 0x01 ∷ 0x0c ∷ 0x12 ∷ 0x03 ∷ 0x1d ∷ 0x00 ∷ 0x12 ∷ 0x32 ∷ 0xdc
    ∷ 0x0b ∷ 0x20 ∷ 0x43 ∷ 0x6f ∷ 0x70 ∷ 0x79 ∷ 0x72 ∷ 0x69 ∷ 0x67 ∷ 0x68 ∷ 0x74 ∷ 0x20 ∷ 0x32
    ∷ 0x30 ∷ 0x31 ∷ 0x35 ∷ 0x2c ∷ 0x20 ∷ 0x47 ∷ 0x6f ∷ 0x6f ∷ 0x67 ∷ 0x6c ∷ 0x65 ∷ 0x20 ∷ 0x49
    ∷ 0x6e ∷ 0x63 ∷ 0x2e ∷ 0x0a ∷ 0x20 ∷ 0x41 ∷ 0x6c ∷ 0x6c ∷ 0x20 ∷ 0x72 ∷ 0x69 ∷ 0x67 ∷ 0x68
    ∷ 0x74 ∷ 0x73 ∷ 0x20 ∷ 0x72 ∷ 0x65 ∷ 0x73 ∷ 0x65 ∷ 0x72 ∷ 0x76 ∷ 0x65 ∷ 0x64 ∷ 0x2e ∷ 0x0a
    ∷ 0x0a ∷ 0x20 ∷ 0x52 ∷ 0x65 ∷ 0x64 ∷ 0x69 ∷ 0x73 ∷ 0x74 ∷ 0x72 ∷ 0x69 ∷ 0x62 ∷ 0x75 ∷ 0x74
    ∷ 0x69 ∷ 0x6f ∷ 0x6e ∷ 0x20 ∷ 0x61 ∷ 0x6e ∷ 0x64 ∷ 0x20 ∷ 0x75 ∷ 0x73 ∷ 0x65 ∷ 0x20 ∷ 0x69
    ∷ 0x6e ∷ 0x20 ∷ 0x73 ∷ 0x6f ∷ 0x75 ∷ 0x72 ∷ 0x63 ∷ 0x65 ∷ 0x20 ∷ 0x61 ∷ 0x6e ∷ 0x64 ∷ 0x20
    ∷ 0x62 ∷ 0x69 ∷ 0x6e ∷ 0x61 ∷ 0x72 ∷ 0x79 ∷ 0x20 ∷ 0x66 ∷ 0x6f ∷ 0x72 ∷ 0x6d ∷ 0x73 ∷ 0x2c
    ∷ 0x20 ∷ 0x77 ∷ 0x69 ∷ 0x74 ∷ 0x68 ∷ 0x20 ∷ 0x6f ∷ 0x72 ∷ 0x20 ∷ 0x77 ∷ 0x69 ∷ 0x74 ∷ 0x68
    ∷ 0x6f ∷ 0x75 ∷ 0x74 ∷ 0x0a ∷ 0x20 ∷ 0x6d ∷ 0x6f ∷ 0x64 ∷ 0x69 ∷ 0x66 ∷ 0x69 ∷ 0x63 ∷ 0x61
    ∷ 0x74 ∷ 0x69 ∷ 0x6f ∷ 0x6e ∷ 0x2c ∷ 0x20 ∷ 0x61 ∷ 0x72 ∷ 0x65 ∷ 0x20 ∷ 0x70 ∷ 0x65 ∷ 0x72
    ∷ 0x6d ∷ 0x69 ∷ 0x74 ∷ 0x74 ∷ 0x65 ∷ 0x64 ∷ 0x20 ∷ 0x70 ∷ 0x72 ∷ 0x6f ∷ 0x76 ∷ 0x69 ∷ 0x64
    ∷ 0x65 ∷ 0x64 ∷ 0x20 ∷ 0x74 ∷ 0x68 ∷ 0x61 ∷ 0x74 ∷ 0x20 ∷ 0x74 ∷ 0x68 ∷ 0x65 ∷ 0x20 ∷ 0x66
    ∷ 0x6f ∷ 0x6c ∷ 0x6c ∷ 0x6f ∷ 0x77 ∷ 0x69 ∷ 0x6e ∷ 0x67 ∷ 0x20 ∷ 0x63 ∷ 0x6f ∷ 0x6e ∷ 0x64
    ∷ 0x69 ∷ 0x74 ∷ 0x69 ∷ 0x6f ∷ 0x6e ∷ 0x73 ∷ 0x20 ∷ 0x61 ∷ 0x72 ∷ 0x65 ∷ 0x0a ∷ 0x20 ∷ 0x6d
    ∷ 0x65 ∷ 0x74 ∷ 0x3a ∷ 0x0a ∷ 0x0a ∷ 0x20 ∷ 0x20 ∷ 0x20 ∷ 0x20 ∷ 0x20 ∷ 0x2a ∷ 0x20 ∷ 0x52
    ∷ 0x65 ∷ 0x64 ∷ 0x69 ∷ 0x73 ∷ 0x74 ∷ 0x72 ∷ 0x69 ∷ 0x62 ∷ 0x75 ∷ 0x74 ∷ 0x69 ∷ 0x6f ∷ 0x6e
    ∷ 0x73 ∷ 0x20 ∷ 0x6f ∷ 0x66 ∷ 0x20 ∷ 0x73 ∷ 0x6f ∷ 0x75 ∷ 0x72 ∷ 0x63 ∷ 0x65 ∷ 0x20 ∷ 0x63
    ∷ 0x6f ∷ 0x64 ∷ 0x65 ∷ 0x20 ∷ 0x6d ∷ 0x75 ∷ 0x73 ∷ 0x74 ∷ 0x20 ∷ 0x72 ∷ 0x65 ∷ 0x74 ∷ 0x61
    ∷ 0x69 ∷ 0x6e ∷ 0x20 ∷ 0x74 ∷ 0x68 ∷ 0x65 ∷ 0x20 ∷ 0x61 ∷ 0x62 ∷ 0x6f ∷ 0x76 ∷ 0x65 ∷ 0x20
    ∷ 0x63 ∷ 0x6f ∷ 0x70 ∷ 0x79 ∷ 0x72 ∷ 0x69 ∷ 0x67 ∷ 0x68 ∷ 0x74 ∷ 0x0a ∷ 0x20 ∷ 0x6e ∷ 0x6f
    ∷ 0x74 ∷ 0x69 ∷ 0x63 ∷ 0x65 ∷ 0x2c ∷ 0x20 ∷ 0x74 ∷ 0x68 ∷ 0x69 ∷ 0x73 ∷ 0x20 ∷ 0x6c ∷ 0x69
    ∷ 0x73 ∷ 0x74 ∷ 0x20 ∷ 0x6f ∷ 0x66 ∷ 0x20 ∷ 0x63 ∷ 0x6f ∷ 0x6e ∷ 0x64 ∷ 0x69 ∷ 0x74 ∷ 0x69
    ∷ 0x6f ∷ 0x6e ∷ 0x73 ∷ 0x20 ∷ 0x61 ∷ 0x6e ∷ 0x64 ∷ 0x20 ∷ 0x74 ∷ 0x68 ∷ 0x65 ∷ 0x20 ∷ 0x66
    ∷ 0x6f ∷ 0x6c ∷ 0x6c ∷ 0x6f ∷ 0x77 ∷ 0x69 ∷ 0x6e ∷ 0x67 ∷ 0x20 ∷ 0x64 ∷ 0x69 ∷ 0x73 ∷ 0x63
    ∷ 0x6c ∷ 0x61 ∷ 0x69 ∷ 0x6d ∷ 0x65 ∷ 0x72 ∷ 0x2e ∷ 0x0a ∷ 0x20 ∷ 0x20 ∷ 0x20 ∷ 0x20 ∷ 0x20
    ∷ 0x2a ∷ 0x20 ∷ 0x52 ∷ 0x65 ∷ 0x64 ∷ 0x69 ∷ 0x73 ∷ 0x74 ∷ 0x72 ∷ 0x69 ∷ 0x62 ∷ 0x75 ∷ 0x74
    ∷ 0x69 ∷ 0x6f ∷ 0x6e ∷ 0x73 ∷ 0x20 ∷ 0x69 ∷ 0x6e ∷ 0x20 ∷ 0x62 ∷ 0x69 ∷ 0x6e ∷ 0x61 ∷ 0x72
    ∷ 0x79 ∷ 0x20 ∷ 0x66 ∷ 0x6f ∷ 0x72 ∷ 0x6d ∷ 0x20 ∷ 0x6d ∷ 0x75 ∷ 0x73 ∷ 0x74 ∷ 0x20 ∷ 0x72
    ∷ 0x65 ∷ 0x70 ∷ 0x72 ∷ 0x6f ∷ 0x64 ∷ 0x75 ∷ 0x63 ∷ 0x65 ∷ 0x20 ∷ 0x74 ∷ 0x68 ∷ 0x65 ∷ 0x20
    ∷ 0x61 ∷ 0x62 ∷ 0x6f ∷ 0x76 ∷ 0x65 ∷ 0x0a ∷ 0x20 ∷ 0x63 ∷ 0x6f ∷ 0x70 ∷ 0x79 ∷ 0x72 ∷ 0x69
    ∷ 0x67 ∷ 0x68 ∷ 0x74 ∷ 0x20 ∷ 0x6e ∷ 0x6f ∷ 0x74 ∷ 0x69 ∷ 0x63 ∷ 0x65 ∷ 0x2c ∷ 0x20 ∷ 0x74
    ∷ 0x68 ∷ 0x69 ∷ 0x73 ∷ 0x20 ∷ 0x6c ∷ 0x69 ∷ 0x73 ∷ 0x74 ∷ 0x20 ∷ 0x6f ∷ 0x66 ∷ 0x20 ∷ 0x63
    ∷ 0x6f ∷ 0x6e ∷ 0x64 ∷ 0x69 ∷ 0x74 ∷ 0x69 ∷ 0x6f ∷ 0x6e ∷ 0x73 ∷ 0x20 ∷ 0x61 ∷ 0x6e ∷ 0x64
    ∷ 0x20 ∷ 0x74 ∷ 0x68 ∷ 0x65 ∷ 0x20 ∷ 0x66 ∷ 0x6f ∷ 0x6c ∷ 0x6c ∷ 0x6f ∷ 0x77 ∷ 0x69 ∷ 0x6e
    ∷ 0x67 ∷ 0x20 ∷ 0x64 ∷ 0x69 ∷ 0x73 ∷ 0x63 ∷ 0x6c ∷ 0x61 ∷ 0x69 ∷ 0x6d ∷ 0x65 ∷ 0x72 ∷ 0x0a
    ∷ 0x20 ∷ 0x69 ∷ 0x6e ∷ 0x20 ∷ 0x74 ∷ 0x68 ∷ 0x65 ∷ 0x20 ∷ 0x64 ∷ 0x6f ∷ 0x63 ∷ 0x75 ∷ 0x6d
    ∷ 0x65 ∷ 0x6e ∷ 0x74 ∷ 0x61 ∷ 0x74 ∷ 0x69 ∷ 0x6f ∷ 0x6e ∷ 0x20 ∷ 0x61 ∷ 0x6e ∷ 0x64 ∷ 0x2f
    ∷ 0x6f ∷ 0x72 ∷ 0x20 ∷ 0x6f ∷ 0x74 ∷ 0x68 ∷ 0x65 ∷ 0x72 ∷ 0x20 ∷ 0x6d ∷ 0x61 ∷ 0x74 ∷ 0x65
    ∷ 0x72 ∷ 0x69 ∷ 0x61 ∷ 0x6c ∷ 0x73 ∷ 0x20 ∷ 0x70 ∷ 0x72 ∷ 0x6f ∷ 0x76 ∷ 0x69 ∷ 0x64 ∷ 0x65
    ∷ 0x64 ∷ 0x20 ∷ 0x77 ∷ 0x69 ∷ 0x74 ∷ 0x68 ∷ 0x20 ∷ 0x74 ∷ 0x68 ∷ 0x65 ∷ 0x0a ∷ 0x20 ∷ 0x64
    ∷ 0x69 ∷ 0x73 ∷ 0x74 ∷ 0x72 ∷ 0x69 ∷ 0x62 ∷ 0x75 ∷ 0x74 ∷ 0x69 ∷ 0x6f ∷ 0x6e ∷ 0x2e ∷ 0x0a
    ∷ 0x20 ∷ 0x20 ∷ 0x20 ∷ 0x20 ∷ 0x20 ∷ 0x2a ∷ 0x20 ∷ 0x4e ∷ 0x65 ∷ 0x69 ∷ 0x74 ∷ 0x68 ∷ 0x65
    ∷ 0x72 ∷ 0x20 ∷ 0x74 ∷ 0x68 ∷ 0x65 ∷ 0x20 ∷ 0x6e ∷ 0x61 ∷ 0x6d ∷ 0x65 ∷ 0x20 ∷ 0x6f ∷ 0x66
    ∷ 0x20 ∷ 0x47 ∷ 0x6f ∷ 0x6f ∷ 0x67 ∷ 0x6c ∷ 0x65 ∷ 0x20 ∷ 0x49 ∷ 0x6e ∷ 0x63 ∷ 0x2e ∷ 0x20
    ∷ 0x6e ∷ 0x6f ∷ 0x72 ∷ 0x20 ∷ 0x74 ∷ 0x68 ∷ 0x65 ∷ 0x20 ∷ 0x6e ∷ 0x61 ∷ 0x6d ∷ 0x65 ∷ 0x73
    ∷ 0x20 ∷ 0x6f ∷ 0x66 ∷ 0x20 ∷ 0x69 ∷ 0x74 ∷ 0x73 ∷ 0x0a ∷ 0x20 ∷ 0x63 ∷ 0x6f ∷ 0x6e ∷ 0x74
    ∷ 0x72 ∷ 0x69 ∷ 0x62 ∷ 0x75 ∷ 0x74 ∷ 0x6f ∷ 0x72 ∷ 0x73 ∷ 0x20 ∷ 0x6d ∷ 0x61 ∷ 0x79 ∷ 0x20
    ∷ 0x62 ∷ 0x65 ∷ 0x20 ∷ 0x75 ∷ 0x73 ∷ 0x65 ∷ 0x64 ∷ 0x20 ∷ 0x74 ∷ 0x6f ∷ 0x20 ∷ 0x65 ∷ 0x6e
    ∷ 0x64 ∷ 0x6f ∷ 0x72 ∷ 0x73 ∷ 0x65 ∷ 0x20 ∷ 0x6f ∷ 0x72 ∷ 0x20 ∷ 0x70 ∷ 0x72 ∷ 0x6f ∷ 0x6d
    ∷ 0x6f ∷ 0x74 ∷ 0x65 ∷ 0x20 ∷ 0x70 ∷ 0x72 ∷ 0x6f ∷ 0x64 ∷ 0x75 ∷ 0x63 ∷ 0x74 ∷ 0x73 ∷ 0x20
    ∷ 0x64 ∷ 0x65 ∷ 0x72 ∷ 0x69 ∷ 0x76 ∷ 0x65 ∷ 0x64 ∷ 0x20 ∷ 0x66 ∷ 0x72 ∷ 0x6f ∷ 0x6d ∷ 0x0a
    ∷ 0x20 ∷ 0x74 ∷ 0x68 ∷ 0x69 ∷ 0x73 ∷ 0x20 ∷ 0x73 ∷ 0x6f ∷ 0x66 ∷ 0x74 ∷ 0x77 ∷ 0x61 ∷ 0x72
    ∷ 0x65 ∷ 0x20 ∷ 0x77 ∷ 0x69 ∷ 0x74 ∷ 0x68 ∷ 0x6f ∷ 0x75 ∷ 0x74 ∷ 0x20 ∷ 0x73 ∷ 0x70 ∷ 0x65
    ∷ 0x63 ∷ 0x69 ∷ 0x66 ∷ 0x69 ∷ 0x63 ∷ 0x20 ∷ 0x70 ∷ 0x72 ∷ 0x69 ∷ 0x6f ∷ 0x72 ∷ 0x20 ∷ 0x77
    ∷ 0x72 ∷ 0x69 ∷ 0x74 ∷ 0x74 ∷ 0x65 ∷ 0x6e ∷ 0x20 ∷ 0x70 ∷ 0x65 ∷ 0x72 ∷ 0x6d ∷ 0x69 ∷ 0x73
    ∷ 0x73 ∷ 0x69 ∷ 0x6f ∷ 0x6e ∷ 0x2e ∷ 0x0a ∷ 0x0a ∷ 0x20 ∷ 0x54 ∷ 0x48 ∷ 0x49 ∷ 0x53 ∷ 0x20
    ∷ 0x53 ∷ 0x4f ∷ 0x46 ∷ 0x54 ∷ 0x57 ∷ 0x41 ∷ 0x52 ∷ 0x45 ∷ 0x20 ∷ 0x49 ∷ 0x53 ∷ 0x20 ∷ 0x50
    ∷ 0x52 ∷ 0x4f ∷ 0x56 ∷ 0x49 ∷ 0x44 ∷ 0x45 ∷ 0x44 ∷ 0x20 ∷ 0x42 ∷ 0x59 ∷ 0x20 ∷ 0x54 ∷ 0x48
    ∷ 0x45 ∷ 0x20 ∷ 0x43 ∷ 0x4f ∷ 0x50 ∷ 0x59 ∷ 0x52 ∷ 0x49 ∷ 0x47 ∷ 0x48 ∷ 0x54 ∷ 0x20 ∷ 0x48
    ∷ 0x4f ∷ 0x4c ∷ 0x44 ∷ 0x45 ∷ 0x52 ∷ 0x53 ∷ 0x20 ∷ 0x41 ∷ 0x4e ∷ 0x44 ∷ 0x20 ∷ 0x43 ∷ 0x4f
    ∷ 0x4e ∷ 0x54 ∷ 0x52 ∷ 0x49 ∷ 0x42 ∷ 0x55 ∷ 0x54 ∷ 0x4f ∷ 0x52 ∷ 0x53 ∷ 0x0a ∷ 0x20 ∷ 0x22
    ∷ 0x41 ∷ 0x53 ∷ 0x20 ∷ 0x49 ∷ 0x53 ∷ 0x22 ∷ 0x20 ∷ 0x41 ∷ 0x4e ∷ 0x44 ∷ 0x20 ∷ 0x41 ∷ 0x4e
    ∷ 0x59 ∷ 0x20 ∷ 0x45 ∷ 0x58 ∷ 0x50 ∷ 0x52 ∷ 0x45 ∷ 0x53 ∷ 0x53 ∷ 0x20 ∷ 0x4f ∷ 0x52 ∷ 0x20
    ∷ 0x49 ∷ 0x4d ∷ 0x50 ∷ 0x4c ∷ 0x49 ∷ 0x45 ∷ 0x44 ∷ 0x20 ∷ 0x57 ∷ 0x41 ∷ 0x52 ∷ 0x52 ∷ 0x41
    ∷ 0x4e ∷ 0x54 ∷ 0x49 ∷ 0x45 ∷ 0x53 ∷ 0x2c ∷ 0x20 ∷ 0x49 ∷ 0x4e ∷ 0x43 ∷ 0x4c ∷ 0x55 ∷ 0x44
    ∷ 0x49 ∷ 0x4e ∷ 0x47 ∷ 0x2c ∷ 0x20 ∷ 0x42 ∷ 0x55 ∷ 0x54 ∷ 0x20 ∷ 0x4e ∷ 0x4f ∷ 0x54 ∷ 0x0a
    ∷ 0x20 ∷ 0x4c ∷ 0x49 ∷ 0x4d ∷ 0x49 ∷ 0x54 ∷ 0x45 ∷ 0x44 ∷ 0x20 ∷ 0x54 ∷ 0x4f ∷ 0x2c ∷ 0x20
    ∷ 0x54 ∷ 0x48 ∷ 0x45 ∷ 0x20 ∷ 0x49 ∷ 0x4d ∷ 0x50 ∷ 0x4c ∷ 0x49 ∷ 0x45 ∷ 0x44 ∷ 0x20 ∷ 0x57
    ∷ 0x41 ∷ 0x52 ∷ 0x52 ∷ 0x41 ∷ 0x4e ∷ 0x54 ∷ 0x49 ∷ 0x45 ∷ 0x53 ∷ 0x20 ∷ 0x4f ∷ 0x46 ∷ 0x20
    ∷ 0x4d ∷ 0x45 ∷ 0x52 ∷ 0x43 ∷ 0x48 ∷ 0x41 ∷ 0x4e ∷ 0x54 ∷ 0x41 ∷ 0x42 ∷ 0x49 ∷ 0x4c ∷ 0x49
    ∷ 0x54 ∷ 0x59 ∷ 0x20 ∷ 0x41 ∷ 0x4e ∷ 0x44 ∷ 0x20 ∷ 0x46 ∷ 0x49 ∷ 0x54 ∷ 0x4e ∷ 0x45 ∷ 0x53
    ∷ 0x53 ∷ 0x20 ∷ 0x46 ∷ 0x4f ∷ 0x52 ∷ 0x0a ∷ 0x20 ∷ 0x41 ∷ 0x20 ∷ 0x50 ∷ 0x41 ∷ 0x52 ∷ 0x54
    ∷ 0x49 ∷ 0x43 ∷ 0x55 ∷ 0x4c ∷ 0x41 ∷ 0x52 ∷ 0x20 ∷ 0x50 ∷ 0x55 ∷ 0x52 ∷ 0x50 ∷ 0x4f ∷ 0x53
    ∷ 0x45 ∷ 0x20 ∷ 0x41 ∷ 0x52 ∷ 0x45 ∷ 0x20 ∷ 0x44 ∷ 0x49 ∷ 0x53 ∷ 0x43 ∷ 0x4c ∷ 0x41 ∷ 0x49
    ∷ 0x4d ∷ 0x45 ∷ 0x44 ∷ 0x2e ∷ 0x20 ∷ 0x49 ∷ 0x4e ∷ 0x20 ∷ 0x4e ∷ 0x4f ∷ 0x20 ∷ 0x45 ∷ 0x56
    ∷ 0x45 ∷ 0x4e ∷ 0x54 ∷ 0x20 ∷ 0x53 ∷ 0x48 ∷ 0x41 ∷ 0x4c ∷ 0x4c ∷ 0x20 ∷ 0x54 ∷ 0x48 ∷ 0x45
    ∷ 0x20 ∷ 0x43 ∷ 0x4f ∷ 0x50 ∷ 0x59 ∷ 0x52 ∷ 0x49 ∷ 0x47 ∷ 0x48 ∷ 0x54 ∷ 0x0a ∷ 0x20 ∷ 0x4f
    ∷ 0x57 ∷ 0x4e ∷ 0x45 ∷ 0x52 ∷ 0x20 ∷ 0x4f ∷ 0x52 ∷ 0x20 ∷ 0x43 ∷ 0x4f ∷ 0x4e ∷ 0x54 ∷ 0x52
    ∷ 0x49 ∷ 0x42 ∷ 0x55 ∷ 0x54 ∷ 0x4f ∷ 0x52 ∷ 0x53 ∷ 0x20 ∷ 0x42 ∷ 0x45 ∷ 0x20 ∷ 0x4c ∷ 0x49
    ∷ 0x41 ∷ 0x42 ∷ 0x4c ∷ 0x45 ∷ 0x20 ∷ 0x46 ∷ 0x4f ∷ 0x52 ∷ 0x20 ∷ 0x41 ∷ 0x4e ∷ 0x59 ∷ 0x20
    ∷ 0x44 ∷ 0x49 ∷ 0x52 ∷ 0x45 ∷ 0x43 ∷ 0x54 ∷ 0x2c ∷ 0x20 ∷ 0x49 ∷ 0x4e ∷ 0x44 ∷ 0x49 ∷ 0x52
    ∷ 0x45 ∷ 0x43 ∷ 0x54 ∷ 0x2c ∷ 0x20 ∷ 0x49 ∷ 0x4e ∷ 0x43 ∷ 0x49 ∷ 0x44 ∷ 0x45 ∷ 0x4e ∷ 0x54
    ∷ 0x41 ∷ 0x4c ∷ 0x2c ∷ 0x0a ∷ 0x20 ∷ 0x53 ∷ 0x50 ∷ 0x45 ∷ 0x43 ∷ 0x49 ∷ 0x41 ∷ 0x4c ∷ 0x2c
    ∷ 0x20 ∷ 0x45 ∷ 0x58 ∷ 0x45 ∷ 0x4d ∷ 0x50 ∷ 0x4c ∷ 0x41 ∷ 0x52 ∷ 0x59 ∷ 0x2c ∷ 0x20 ∷ 0x4f
    ∷ 0x52 ∷ 0x20 ∷ 0x43 ∷ 0x4f ∷ 0x4e ∷ 0x53 ∷ 0x45 ∷ 0x51 ∷ 0x55 ∷ 0x45 ∷ 0x4e ∷ 0x54 ∷ 0x49
    ∷ 0x41 ∷ 0x4c ∷ 0x20 ∷ 0x44 ∷ 0x41 ∷ 0x4d ∷ 0x41 ∷ 0x47 ∷ 0x45 ∷ 0x53 ∷ 0x20 ∷ 0x28 ∷ 0x49
    ∷ 0x4e ∷ 0x43 ∷ 0x4c ∷ 0x55 ∷ 0x44 ∷ 0x49 ∷ 0x4e ∷ 0x47 ∷ 0x2c ∷ 0x20 ∷ 0x42 ∷ 0x55 ∷ 0x54
    ∷ 0x20 ∷ 0x4e ∷ 0x4f ∷ 0x54 ∷ 0x0a ∷ 0x20 ∷ 0x4c ∷ 0x49 ∷ 0x4d ∷ 0x49 ∷ 0x54 ∷ 0x45 ∷ 0x44
    ∷ 0x20 ∷ 0x54 ∷ 0x4f ∷ 0x2c ∷ 0x20 ∷ 0x50 ∷ 0x52 ∷ 0x4f ∷ 0x43 ∷ 0x55 ∷ 0x52 ∷ 0x45 ∷ 0x4d
    ∷ 0x45 ∷ 0x4e ∷ 0x54 ∷ 0x20 ∷ 0x4f ∷ 0x46 ∷ 0x20 ∷ 0x53 ∷ 0x55 ∷ 0x42 ∷ 0x53 ∷ 0x54 ∷ 0x49
    ∷ 0x54 ∷ 0x55 ∷ 0x54 ∷ 0x45 ∷ 0x20 ∷ 0x47 ∷ 0x4f ∷ 0x4f ∷ 0x44 ∷ 0x53 ∷ 0x20 ∷ 0x4f ∷ 0x52
    ∷ 0x20 ∷ 0x53 ∷ 0x45 ∷ 0x52 ∷ 0x56 ∷ 0x49 ∷ 0x43 ∷ 0x45 ∷ 0x53 ∷ 0x3b ∷ 0x20 ∷ 0x4c ∷ 0x4f
    ∷ 0x53 ∷ 0x53 ∷ 0x20 ∷ 0x4f ∷ 0x46 ∷ 0x20 ∷ 0x55 ∷ 0x53 ∷ 0x45 ∷ 0x2c ∷ 0x0a ∷ 0x20 ∷ 0x44
    ∷ 0x41 ∷ 0x54 ∷ 0x41 ∷ 0x2c ∷ 0x20 ∷ 0x4f ∷ 0x52 ∷ 0x20 ∷ 0x50 ∷ 0x52 ∷ 0x4f ∷ 0x46 ∷ 0x49
    ∷ 0x54 ∷ 0x53 ∷ 0x3b ∷ 0x20 ∷ 0x4f ∷ 0x52 ∷ 0x20 ∷ 0x42 ∷ 0x55 ∷ 0x53 ∷ 0x49 ∷ 0x4e ∷ 0x45
    ∷ 0x53 ∷ 0x53 ∷ 0x20 ∷ 0x49 ∷ 0x4e ∷ 0x54 ∷ 0x45 ∷ 0x52 ∷ 0x52 ∷ 0x55 ∷ 0x50 ∷ 0x54 ∷ 0x49
    ∷ 0x4f ∷ 0x4e ∷ 0x29 ∷ 0x20 ∷ 0x48 ∷ 0x4f ∷ 0x57 ∷ 0x45 ∷ 0x56 ∷ 0x45 ∷ 0x52 ∷ 0x20 ∷ 0x43
    ∷ 0x41 ∷ 0x55 ∷ 0x53 ∷ 0x45 ∷ 0x44 ∷ 0x20 ∷ 0x41 ∷ 0x4e ∷ 0x44 ∷ 0x20 ∷ 0x4f ∷ 0x4e ∷ 0x20
    ∷ 0x41 ∷ 0x4e ∷ 0x59 ∷ 0x0a ∷ 0x20 ∷ 0x54 ∷ 0x48 ∷ 0x45 ∷ 0x4f ∷ 0x52 ∷ 0x59 ∷ 0x20 ∷ 0x4f
    ∷ 0x46 ∷ 0x20 ∷ 0x4c ∷ 0x49 ∷ 0x41 ∷ 0x42 ∷ 0x49 ∷ 0x4c ∷ 0x49 ∷ 0x54 ∷ 0x59 ∷ 0x2c ∷ 0x20
    ∷ 0x57 ∷ 0x48 ∷ 0x45 ∷ 0x54 ∷ 0x48 ∷ 0x45 ∷ 0x52 ∷ 0x20 ∷ 0x49 ∷ 0x4e ∷ 0x20 ∷ 0x43 ∷ 0x4f
    ∷ 0x4e ∷ 0x54 ∷ 0x52 ∷ 0x41 ∷ 0x43 ∷ 0x54 ∷ 0x2c ∷ 0x20 ∷ 0x53 ∷ 0x54 ∷ 0x52 ∷ 0x49 ∷ 0x43
    ∷ 0x54 ∷ 0x20 ∷ 0x4c ∷ 0x49 ∷ 0x41 ∷ 0x42 ∷ 0x49 ∷ 0x4c ∷ 0x49 ∷ 0x54 ∷ 0x59 ∷ 0x2c ∷ 0x20
    ∷ 0x4f ∷ 0x52 ∷ 0x20 ∷ 0x54 ∷ 0x4f ∷ 0x52 ∷ 0x54 ∷ 0x0a ∷ 0x20 ∷ 0x28 ∷ 0x49 ∷ 0x4e ∷ 0x43
    ∷ 0x4c ∷ 0x55 ∷ 0x44 ∷ 0x49 ∷ 0x4e ∷ 0x47 ∷ 0x20 ∷ 0x4e ∷ 0x45 ∷ 0x47 ∷ 0x4c ∷ 0x49 ∷ 0x47
    ∷ 0x45 ∷ 0x4e ∷ 0x43 ∷ 0x45 ∷ 0x20 ∷ 0x4f ∷ 0x52 ∷ 0x20 ∷ 0x4f ∷ 0x54 ∷ 0x48 ∷ 0x45 ∷ 0x52
    ∷ 0x57 ∷ 0x49 ∷ 0x53 ∷ 0x45 ∷ 0x29 ∷ 0x20 ∷ 0x41 ∷ 0x52 ∷ 0x49 ∷ 0x53 ∷ 0x49 ∷ 0x4e ∷ 0x47
    ∷ 0x20 ∷ 0x49 ∷ 0x4e ∷ 0x20 ∷ 0x41 ∷ 0x4e ∷ 0x59 ∷ 0x20 ∷ 0x57 ∷ 0x41 ∷ 0x59 ∷ 0x20 ∷ 0x4f
    ∷ 0x55 ∷ 0x54 ∷ 0x20 ∷ 0x4f ∷ 0x46 ∷ 0x20 ∷ 0x54 ∷ 0x48 ∷ 0x45 ∷ 0x20 ∷ 0x55 ∷ 0x53 ∷ 0x45
    ∷ 0x0a ∷ 0x20 ∷ 0x4f ∷ 0x46 ∷ 0x20 ∷ 0x54 ∷ 0x48 ∷ 0x49 ∷ 0x53 ∷ 0x20 ∷ 0x53 ∷ 0x4f ∷ 0x46
    ∷ 0x54 ∷ 0x57 ∷ 0x41 ∷ 0x52 ∷ 0x45 ∷ 0x2c ∷ 0x20 ∷ 0x45 ∷ 0x56 ∷ 0x45 ∷ 0x4e ∷ 0x20 ∷ 0x49
    ∷ 0x46 ∷ 0x20 ∷ 0x41 ∷ 0x44 ∷ 0x56 ∷ 0x49 ∷ 0x53 ∷ 0x45 ∷ 0x44 ∷ 0x20 ∷ 0x4f ∷ 0x46 ∷ 0x20
    ∷ 0x54 ∷ 0x48 ∷ 0x45 ∷ 0x20 ∷ 0x50 ∷ 0x4f ∷ 0x53 ∷ 0x53 ∷ 0x49 ∷ 0x42 ∷ 0x49 ∷ 0x4c ∷ 0x49
    ∷ 0x54 ∷ 0x59 ∷ 0x20 ∷ 0x4f ∷ 0x46 ∷ 0x20 ∷ 0x53 ∷ 0x55 ∷ 0x43 ∷ 0x48 ∷ 0x20 ∷ 0x44 ∷ 0x41
    ∷ 0x4d ∷ 0x41 ∷ 0x47 ∷ 0x45 ∷ 0x2e ∷ 0x0a ∷ 0x0a ∷ 0x08 ∷ 0x0a ∷ 0x01 ∷ 0x08 ∷ 0x12 ∷ 0x03
    ∷ 0x1f ∷ 0x00 ∷ 0x22 ∷ 0x0a ∷ 0x0b ∷ 0x0a ∷ 0x04 ∷ 0x08 ∷ 0xe7 ∷ 0x07 ∷ 0x00 ∷ 0x12 ∷ 0x03
    ∷ 0x1f ∷ 0x00 ∷ 0x22 ∷ 0x0a ∷ 0x0c ∷ 0x0a ∷ 0x05 ∷ 0x08 ∷ 0xe7 ∷ 0x07 ∷ 0x00 ∷ 0x02 ∷ 0x12
    ∷ 0x03 ∷ 0x1f ∷ 0x07 ∷ 0x1a ∷ 0x0a ∷ 0x0d ∷ 0x0a ∷ 0x06 ∷ 0x08 ∷ 0xe7 ∷ 0x07 ∷ 0x00 ∷ 0x02
    ∷ 0x00 ∷ 0x12 ∷ 0x03 ∷ 0x1f ∷ 0x07 ∷ 0x1a ∷ 0x0a ∷ 0x0e ∷ 0x0a ∷ 0x07 ∷ 0x08 ∷ 0xe7 ∷ 0x07
    ∷ 0x00 ∷ 0x02 ∷ 0x00 ∷ 0x01 ∷ 0x12 ∷ 0x03 ∷ 0x1f ∷ 0x07 ∷ 0x1a ∷ 0x0a ∷ 0x0c ∷ 0x0a ∷ 0x05
    ∷ 0x08 ∷ 0xe7 ∷ 0x07 ∷ 0x00 ∷ 0x03 ∷ 0x12 ∷ 0x03 ∷ 0x1f ∷ 0x1d ∷ 0x21 ∷ 0x0a ∷ 0x08 ∷ 0x0a
    ∷ 0x01 ∷ 0x08 ∷ 0x12 ∷ 0x03 ∷ 0x20 ∷ 0x00 ∷ 0x34 ∷ 0x0a ∷ 0x0b ∷ 0x0a ∷ 0x04 ∷ 0x08 ∷ 0xe7
    ∷ 0x07 ∷ 0x01 ∷ 0x12 ∷ 0x03 ∷ 0x20 ∷ 0x00 ∷ 0x34 ∷ 0x0a ∷ 0x0c ∷ 0x0a ∷ 0x05 ∷ 0x08 ∷ 0xe7
    ∷ 0x07 ∷ 0x01 ∷ 0x02 ∷ 0x12 ∷ 0x03 ∷ 0x20 ∷ 0x07 ∷ 0x13 ∷ 0x0a ∷ 0x0d ∷ 0x0a ∷ 0x06 ∷ 0x08
    ∷ 0xe7 ∷ 0x07 ∷ 0x01 ∷ 0x02 ∷ 0x00 ∷ 0x12 ∷ 0x03 ∷ 0x20 ∷ 0x07 ∷ 0x13 ∷ 0x0a ∷ 0x0e ∷ 0x0a
    ∷ 0x07 ∷ 0x08 ∷ 0xe7 ∷ 0x07 ∷ 0x01 ∷ 0x02 ∷ 0x00 ∷ 0x01 ∷ 0x12 ∷ 0x03 ∷ 0x20 ∷ 0x07 ∷ 0x13
    ∷ 0x0a ∷ 0x0c ∷ 0x0a ∷ 0x05 ∷ 0x08 ∷ 0xe7 ∷ 0x07 ∷ 0x01 ∷ 0x07 ∷ 0x12 ∷ 0x03 ∷ 0x20 ∷ 0x16
    ∷ 0x33 ∷ 0x0a ∷ 0x08 ∷ 0x0a ∷ 0x01 ∷ 0x08 ∷ 0x12 ∷ 0x03 ∷ 0x21 ∷ 0x00 ∷ 0x30 ∷ 0x0a ∷ 0x0b
    ∷ 0x0a ∷ 0x04 ∷ 0x08 ∷ 0xe7 ∷ 0x07 ∷ 0x02 ∷ 0x12 ∷ 0x03 ∷ 0x21 ∷ 0x00 ∷ 0x30 ∷ 0x0a ∷ 0x0c
    ∷ 0x0a ∷ 0x05 ∷ 0x08 ∷ 0xe7 ∷ 0x07 ∷ 0x02 ∷ 0x02 ∷ 0x12 ∷ 0x03 ∷ 0x21 ∷ 0x07 ∷ 0x1b ∷ 0x0a
    ∷ 0x0d ∷ 0x0a ∷ 0x06 ∷ 0x08 ∷ 0xe7 ∷ 0x07 ∷ 0x02 ∷ 0x02 ∷ 0x00 ∷ 0x12 ∷ 0x03 ∷ 0x21 ∷ 0x07
    ∷ 0x1b ∷ 0x0a ∷ 0x0e ∷ 0x0a ∷ 0x07 ∷ 0x08 ∷ 0xe7 ∷ 0x07 ∷ 0x02 ∷ 0x02 ∷ 0x00 ∷ 0x01 ∷ 0x12
    ∷ 0x03 ∷ 0x21 ∷ 0x07 ∷ 0x1b ∷ 0x0a ∷ 0x0c ∷ 0x0a ∷ 0x05 ∷ 0x08 ∷ 0xe7 ∷ 0x07 ∷ 0x02 ∷ 0x07
    ∷ 0x12 ∷ 0x03 ∷ 0x21 ∷ 0x1e ∷ 0x2f ∷ 0x0a ∷ 0x08 ∷ 0x0a ∷ 0x01 ∷ 0x08 ∷ 0x12 ∷ 0x03 ∷ 0x22
    ∷ 0x00 ∷ 0x21 ∷ 0x0a ∷ 0x0b ∷ 0x0a ∷ 0x04 ∷ 0x08 ∷ 0xe7 ∷ 0x07 ∷ 0x03 ∷ 0x12 ∷ 0x03 ∷ 0x22
    ∷ 0x00 ∷ 0x21 ∷ 0x0a ∷ 0x0c ∷ 0x0a ∷ 0x05 ∷ 0x08 ∷ 0xe7 ∷ 0x07 ∷ 0x03 ∷ 0x02 ∷ 0x12 ∷ 0x03
    ∷ 0x22 ∷ 0x07 ∷ 0x18 ∷ 0x0a ∷ 0x0d ∷ 0x0a ∷ 0x06 ∷ 0x08 ∷ 0xe7 ∷ 0x07 ∷ 0x03 ∷ 0x02 ∷ 0x00
    ∷ 0x12 ∷ 0x03 ∷ 0x22 ∷ 0x07 ∷ 0x18 ∷ 0x0a ∷ 0x0e ∷ 0x0a ∷ 0x07 ∷ 0x08 ∷ 0xe7 ∷ 0x07 ∷ 0x03
    ∷ 0x02 ∷ 0x00 ∷ 0x01 ∷ 0x12 ∷ 0x03 ∷ 0x22 ∷ 0x07 ∷ 0x18 ∷ 0x0a ∷ 0x0c ∷ 0x0a ∷ 0x05 ∷ 0x08
    ∷ 0xe7 ∷ 0x07 ∷ 0x03 ∷ 0x07 ∷ 0x12 ∷ 0x03 ∷ 0x22 ∷ 0x1b ∷ 0x20 ∷ 0x0a ∷ 0x08 ∷ 0x0a ∷ 0x01
    ∷ 0x02 ∷ 0x12 ∷ 0x03 ∷ 0x24 ∷ 0x08 ∷ 0x12 ∷ 0x0a ∷ 0x2e ∷ 0x0a ∷ 0x02 ∷ 0x06 ∷ 0x00 ∷ 0x12
    ∷ 0x04 ∷ 0x27 ∷ 0x00 ∷ 0x2a ∷ 0x01 ∷ 0x1a ∷ 0x22 ∷ 0x20 ∷ 0x54 ∷ 0x68 ∷ 0x65 ∷ 0x20 ∷ 0x67
    ∷ 0x72 ∷ 0x65 ∷ 0x65 ∷ 0x74 ∷ 0x69 ∷ 0x6e ∷ 0x67 ∷ 0x20 ∷ 0x73 ∷ 0x65 ∷ 0x72 ∷ 0x76 ∷ 0x69
    ∷ 0x63 ∷ 0x65 ∷ 0x20 ∷ 0x64 ∷ 0x65 ∷ 0x66 ∷ 0x69 ∷ 0x6e ∷ 0x69 ∷ 0x74 ∷ 0x69 ∷ 0x6f ∷ 0x6e
    ∷ 0x2e ∷ 0x0a ∷ 0x0a ∷ 0x0a ∷ 0x0a ∷ 0x03 ∷ 0x06 ∷ 0x00 ∷ 0x01 ∷ 0x12 ∷ 0x03 ∷ 0x27 ∷ 0x08
    ∷ 0x0f ∷ 0x0a ∷ 0x1f ∷ 0x0a ∷ 0x04 ∷ 0x06 ∷ 0x00 ∷ 0x02 ∷ 0x00 ∷ 0x12 ∷ 0x03 ∷ 0x29 ∷ 0x02
    ∷ 0x35 ∷ 0x1a ∷ 0x12 ∷ 0x20 ∷ 0x53 ∷ 0x65 ∷ 0x6e ∷ 0x64 ∷ 0x73 ∷ 0x20 ∷ 0x61 ∷ 0x20 ∷ 0x67
    ∷ 0x72 ∷ 0x65 ∷ 0x65 ∷ 0x74 ∷ 0x69 ∷ 0x6e ∷ 0x67 ∷ 0x0a ∷ 0x0a ∷ 0x0c ∷ 0x0a ∷ 0x05 ∷ 0x06
    ∷ 0x00 ∷ 0x02 ∷ 0x00 ∷ 0x01 ∷ 0x12 ∷ 0x03 ∷ 0x29 ∷ 0x06 ∷ 0x0e ∷ 0x0a ∷ 0x0c ∷ 0x0a ∷ 0x05
    ∷ 0x06 ∷ 0x00 ∷ 0x02 ∷ 0x00 ∷ 0x02 ∷ 0x12 ∷ 0x03 ∷ 0x29 ∷ 0x10 ∷ 0x1c ∷ 0x0a ∷ 0x0c ∷ 0x0a
    ∷ 0x05 ∷ 0x06 ∷ 0x00 ∷ 0x02 ∷ 0x00 ∷ 0x03 ∷ 0x12 ∷ 0x03 ∷ 0x29 ∷ 0x27 ∷ 0x31 ∷ 0x0a ∷ 0x3d
    ∷ 0x0a ∷ 0x02 ∷ 0x04 ∷ 0x00 ∷ 0x12 ∷ 0x04 ∷ 0x2d ∷ 0x00 ∷ 0x2f ∷ 0x01 ∷ 0x1a ∷ 0x31 ∷ 0x20
    ∷ 0x54 ∷ 0x68 ∷ 0x65 ∷ 0x20 ∷ 0x72 ∷ 0x65 ∷ 0x71 ∷ 0x75 ∷ 0x65 ∷ 0x73 ∷ 0x74 ∷ 0x20 ∷ 0x6d
    ∷ 0x65 ∷ 0x73 ∷ 0x73 ∷ 0x61 ∷ 0x67 ∷ 0x65 ∷ 0x20 ∷ 0x63 ∷ 0x6f ∷ 0x6e ∷ 0x74 ∷ 0x61 ∷ 0x69
    ∷ 0x6e ∷ 0x69 ∷ 0x6e ∷ 0x67 ∷ 0x20 ∷ 0x74 ∷ 0x68 ∷ 0x65 ∷ 0x20 ∷ 0x75 ∷ 0x73 ∷ 0x65 ∷ 0x72
    ∷ 0x27 ∷ 0x73 ∷ 0x20 ∷ 0x6e ∷ 0x61 ∷ 0x6d ∷ 0x65 ∷ 0x2e ∷ 0x0a ∷ 0x0a ∷ 0x0a ∷ 0x0a ∷ 0x03
    ∷ 0x04 ∷ 0x00 ∷ 0x01 ∷ 0x12 ∷ 0x03 ∷ 0x2d ∷ 0x08 ∷ 0x14 ∷ 0x0a ∷ 0x0b ∷ 0x0a ∷ 0x04 ∷ 0x04
    ∷ 0x00 ∷ 0x02 ∷ 0x00 ∷ 0x12 ∷ 0x03 ∷ 0x2e ∷ 0x02 ∷ 0x12 ∷ 0x0a ∷ 0x0d ∷ 0x0a ∷ 0x05 ∷ 0x04
    ∷ 0x00 ∷ 0x02 ∷ 0x00 ∷ 0x04 ∷ 0x12 ∷ 0x04 ∷ 0x2e ∷ 0x02 ∷ 0x2d ∷ 0x16 ∷ 0x0a ∷ 0x0c ∷ 0x0a
    ∷ 0x05 ∷ 0x04 ∷ 0x00 ∷ 0x02 ∷ 0x00 ∷ 0x05 ∷ 0x12 ∷ 0x03 ∷ 0x2e ∷ 0x02 ∷ 0x08 ∷ 0x0a ∷ 0x0c
    ∷ 0x0a ∷ 0x05 ∷ 0x04 ∷ 0x00 ∷ 0x02 ∷ 0x00 ∷ 0x01 ∷ 0x12 ∷ 0x03 ∷ 0x2e ∷ 0x09 ∷ 0x0d ∷ 0x0a
    ∷ 0x0c ∷ 0x0a ∷ 0x05 ∷ 0x04 ∷ 0x00 ∷ 0x02 ∷ 0x00 ∷ 0x03 ∷ 0x12 ∷ 0x03 ∷ 0x2e ∷ 0x10 ∷ 0x11
    ∷ 0x0a ∷ 0x3b ∷ 0x0a ∷ 0x02 ∷ 0x04 ∷ 0x01 ∷ 0x12 ∷ 0x04 ∷ 0x32 ∷ 0x00 ∷ 0x34 ∷ 0x01 ∷ 0x1a
    ∷ 0x2f ∷ 0x20 ∷ 0x54 ∷ 0x68 ∷ 0x65 ∷ 0x20 ∷ 0x72 ∷ 0x65 ∷ 0x73 ∷ 0x70 ∷ 0x6f ∷ 0x6e ∷ 0x73
    ∷ 0x65 ∷ 0x20 ∷ 0x6d ∷ 0x65 ∷ 0x73 ∷ 0x73 ∷ 0x61 ∷ 0x67 ∷ 0x65 ∷ 0x20 ∷ 0x63 ∷ 0x6f ∷ 0x6e
    ∷ 0x74 ∷ 0x61 ∷ 0x69 ∷ 0x6e ∷ 0x69 ∷ 0x6e ∷ 0x67 ∷ 0x20 ∷ 0x74 ∷ 0x68 ∷ 0x65 ∷ 0x20 ∷ 0x67
    ∷ 0x72 ∷ 0x65 ∷ 0x65 ∷ 0x74 ∷ 0x69 ∷ 0x6e ∷ 0x67 ∷ 0x73 ∷ 0x0a ∷ 0x0a ∷ 0x0a ∷ 0x0a ∷ 0x03
    ∷ 0x04 ∷ 0x01 ∷ 0x01 ∷ 0x12 ∷ 0x03 ∷ 0x32 ∷ 0x08 ∷ 0x12 ∷ 0x0a ∷ 0x0b ∷ 0x0a ∷ 0x04 ∷ 0x04
    ∷ 0x01 ∷ 0x02 ∷ 0x00 ∷ 0x12 ∷ 0x03 ∷ 0x33 ∷ 0x02 ∷ 0x15 ∷ 0x0a ∷ 0x0d ∷ 0x0a ∷ 0x05 ∷ 0x04
    ∷ 0x01 ∷ 0x02 ∷ 0x00 ∷ 0x04 ∷ 0x12 ∷ 0x04 ∷ 0x33 ∷ 0x02 ∷ 0x32 ∷ 0x14 ∷ 0x0a ∷ 0x0c ∷ 0x0a
    ∷ 0x05 ∷ 0x04 ∷ 0x01 ∷ 0x02 ∷ 0x00 ∷ 0x05 ∷ 0x12 ∷ 0x03 ∷ 0x33 ∷ 0x02 ∷ 0x08 ∷ 0x0a ∷ 0x0c
    ∷ 0x0a ∷ 0x05 ∷ 0x04 ∷ 0x01 ∷ 0x02 ∷ 0x00 ∷ 0x01 ∷ 0x12 ∷ 0x03 ∷ 0x33 ∷ 0x09 ∷ 0x10 ∷ 0x0a
    ∷ 0x0c ∷ 0x0a ∷ 0x05 ∷ 0x04 ∷ 0x01 ∷ 0x02 ∷ 0x00 ∷ 0x03 ∷ 0x12 ∷ 0x03 ∷ 0x33 ∷ 0x13 ∷ 0x14
    ∷ 0x62 ∷ 0x06 ∷ 0x70 ∷ 0x72 ∷ 0x6f ∷ 0x74 ∷ 0x6f ∷ 0x33 ∷ []
