-- ===== src/Codegen/Files.antt =====
-- `gen_file` and `gen` of src/codegen.rs: one generated file for each file with services.
use Prim.Native.String.{◌++◌}
use text.Mathlib.Text.{◌==◌ as str_eq}
use grpc_rust.Prelude.{Option, none, some, List, [], ◌∷◌, String, Bytes, if◌then◌else◌}
use grpc_rust.Outcome.{Outcome, returns, no_entry, expect, ◌>>=◌}
use grpc_rust.Codegen.Protobuf.{ServiceDescriptorProto, FileDescriptorProto, Protobuf}
use grpc_rust.Codegen.Services
use grpc_rust.Codegen.Services.{service_gen}

-- `compiler_plugin::GenResult`
pub record GenResult : Type 0 where
  pub name : String
  pub content : Bytes

-- `HashMap` from file names, as `collect` fills it: a later entry of a name replaces an earlier one.
unfoldable pub lookup_file : List FileDescriptorProto → String → Option FileDescriptorProto
lookup_file [] name = none
lookup_file (f ∷ rest) name =
    let later = lookup_file rest name in
    elim later [ some g ↦ some g | none ↦ if str_eq f.name name then some f else none ]

module _ (pb : Protobuf) where
  open pb use {Writer, new_writer, content, write_generated, write_line, proto_path_to_rust_mod}

  unfoldable pub write_services :
      FileDescriptorProto
      → List FileDescriptorProto
      → List ServiceDescriptorProto
      → Writer
      → Outcome Writer
  write_services file root_scope [] w = returns w
  write_services file root_scope (service ∷ rest) w = do
    w1 ← write_line "" w
    w2 ← Services.write pb (service_gen service file root_scope) w1
    write_services file root_scope rest w2

  unfoldable pub gen_file :
      FileDescriptorProto → List FileDescriptorProto → Outcome (Option GenResult)
  unfolding write_services
  gen_file file root_scope = elim file.services [
    | [] ↦ returns none
    | _ ∷ _ ↦ do
      w1 ← write_generated new_writer
      w2 ← write_line "" w1
      w3 ← write_services file root_scope file.services w2
      returns (
          some (record {
            name = proto_path_to_rust_mod file.name ++ "_grpc.rs";
            content = content w3;
          }))
  ]

  -- `results.extend(result.into_iter())`, in front of what the later files give.
  abbrev pub extend_results : Option GenResult → List GenResult → List GenResult
  extend_results none rest = rest
  extend_results (some r) rest = r ∷ rest

  unfoldable pub gen_loop : List FileDescriptorProto → List String → Outcome (List GenResult)
  gen_loop file_descriptors [] = returns []
  gen_loop file_descriptors (file_name ∷ rest) = do
    file ← expect (lookup_file file_descriptors file_name) no_entry
    result ← elim file.services [ [] ↦ returns none | _ ∷ _ ↦ gen_file file file_descriptors ]
    results ← gen_loop file_descriptors rest
    returns (extend_results result results)

  unfoldable pub gen : List FileDescriptorProto → List String → Outcome (List GenResult)
  unfolding gen_loop
  gen file_descriptors files_to_generate = gen_loop file_descriptors files_to_generate
