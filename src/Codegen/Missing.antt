-- ===== src/Codegen/Missing.antt =====
-- A file that `gen` of src/codegen.rs is asked for and that protoc did not hand over.
use grpc_rust.Prelude.{◌≡◌, ◌∙◌, refl, none, List, [], ◌∷◌, ◌++◌, map, String, All, inl, inr}
use grpc_rust.Outcome.{panics, no_entry}
use grpc_rust.Codegen.Protobuf.{FileDescriptorProto, Protobuf}
use grpc_rust.Codegen.Files.{lookup_file, gen_loop, gen}
use grpc_rust.Codegen.Gen.{List-cases, IsRequestable, gen_file-returns, gen_loop-skip, gen_loop-add}
use grpc_rust.Codegen.Writes.{Tracks}

module _ (pb : Protobuf) (t : Tracks pb) where
  -- Asked for a file that is not there, behind files that are found with their message types, the
  -- plugin panics and returns none of the code, whatever else it is asked for.
  pub gen_missing :
      (root_scope front : List FileDescriptorProto) (missing : String) (back : List String)
      → All (IsRequestable pb root_scope) front
      → lookup_file root_scope missing ≡ none
      → gen pb root_scope (map (λ f. f.name) front ++ missing ∷ back) ≡ panics no_entry
  unfolding gen gen_loop
  gen_missing root_scope [] missing back h absent = rw absent refl
  gen_missing root_scope (f ∷ rest) missing back (hf, h) absent =
      let e = gen_missing root_scope rest missing back h absent in
      let names = map (λ g. g.name) rest ++ missing ∷ back in
      elim (List-cases f.services) [
        | inl none_there ↦ gen_loop-skip pb t root_scope f names hf.found none_there ∙ e
        | inr (s, more, there) ↦
            let (r, made, _) = gen_file-returns pb t f root_scope s more there hf.resolves in
            gen_loop-add pb t root_scope f names s more r hf.found there made ∙ rw e
      ]
