-- ===== src/Codegen/Gen.antt =====
-- The results of `gen` (src/codegen.rs).
use Prim.Native.String.{◌++◌ as text_append}
use grpc_rust.Prelude.{◌≡◌, ◌∙◌, refl, some, List, [], ◌∷◌, map, String, All, ◌⊎◌, inl, inr}
use grpc_rust.Outcome.{returns, ◌>>=◌, bind-returns}
use grpc_rust.Codegen.Protobuf.{ServiceDescriptorProto, FileDescriptorProto, Protobuf}
use grpc_rust.Codegen.Files.{GenResult, lookup_file, write_services, gen_file, gen_loop, gen}
use grpc_rust.Codegen.Services.{service_gen}
use grpc_rust.Codegen.Writes.{Tracks}
use grpc_rust.Codegen.Entries.{Resolves}
use grpc_rust.Codegen.ServiceEntries.{write-Writes}

pub List-cases :
    {A : Type 0} (xs : List A) → (xs ≡ []) ⊎ ((x : A) × (rest : List A) × (xs ≡ x ∷ rest))
List-cases [] = inl refl
List-cases (x ∷ rest) = inr (x, rest, refl)

module _ (pb : Protobuf) where
  -- The message types of all methods of the file are found.
  abbrev pub AllResolve :
      List FileDescriptorProto → FileDescriptorProto → List ServiceDescriptorProto → Type 0
  AllResolve root_scope file services =
      All (λ s. All (Resolves pb) (service_gen s file root_scope).methods) services

  -- The file is the one that its name finds, and its message types are found.
  pub record IsRequestable (root_scope : List FileDescriptorProto) (file : FileDescriptorProto)
      : Type 0 where
    pub found : lookup_file root_scope file.name ≡ some file
    pub resolves : AllResolve root_scope file file.services

  -- The names of the generated files: none for a file without services.
  abbrev pub generated_names : List FileDescriptorProto → List String
  generated_names [] = []
  generated_names (f ∷ rest) = elim f.services [
    | [] ↦ generated_names rest
    | _ ∷ _ ↦ text_append (pb.proto_path_to_rust_mod f.name) "_grpc.rs" ∷ generated_names rest
  ]

module _ (pb : Protobuf) (t : Tracks pb) where
  open t use {write_generated_writes, write_line_writes}

  write_services-returns :
      (file : FileDescriptorProto) (root_scope : List FileDescriptorProto)
      (services : List ServiceDescriptorProto) (w : pb.Writer)
      → AllResolve pb root_scope file services
      → (w' : pb.Writer) × (write_services pb file root_scope services w ≡ returns w')
  unfolding write_services
  write_services-returns file root_scope [] w r = (w, refl)
  write_services-returns file root_scope (s ∷ rest) w (rs, r) =
      let (w1, e1, _) = (write_line_writes "").run w in
      let (w2, e2, _) = (write-Writes pb t (service_gen s file root_scope) rs).run w1 in
      let (w3, e3) = write_services-returns file root_scope rest w2 r in (w3, rw (e1, e2) e3)

  gen_file_run :
      (file : FileDescriptorProto) (root_scope : List FileDescriptorProto)
      (s : ServiceDescriptorProto) (rest : List ServiceDescriptorProto) (w1 w2 w3 : pb.Writer)
      → file.services ≡ s ∷ rest
      → pb.write_generated pb.new_writer ≡ returns w1
      → pb.write_line "" w1 ≡ returns w2
      → write_services pb file root_scope file.services w2 ≡ returns w3
      → gen_file pb file root_scope
        ≡ returns (
            some (record {
              name = text_append (pb.proto_path_to_rust_mod file.name) "_grpc.rs";
              content = pb.content w3;
            }))
  unfolding gen_file
  gen_file_run file root_scope s rest w1 w2 w3 e e1 e2 e3 = rw (e, gen_file) (rw e1 (rw e2 (rw e3)))

  pub gen_file-returns :
      (file : FileDescriptorProto) (root_scope : List FileDescriptorProto)
      (s : ServiceDescriptorProto) (rest : List ServiceDescriptorProto)
      → file.services ≡ s ∷ rest
      → AllResolve pb root_scope file file.services
      → (r : GenResult) × (gen_file pb file root_scope ≡ returns (some r))
        × (r.name ≡ text_append (pb.proto_path_to_rust_mod file.name) "_grpc.rs")
  gen_file-returns file root_scope s rest e r =
      let (w1, e1, _) = write_generated_writes.run pb.new_writer in
      let (w2, e2, _) = (write_line_writes "").run w1 in
      let (w3, e3) = write_services-returns file root_scope file.services w2 r in
      (
        record {
          name = text_append (pb.proto_path_to_rust_mod file.name) "_grpc.rs";
          content = pb.content w3;
        },
        gen_file_run file root_scope s rest w1 w2 w3 e e1 e2 e3,
        refl,
      )

  pub gen_loop-skip :
      (root_scope : List FileDescriptorProto) (file : FileDescriptorProto) (names : List String)
      → lookup_file root_scope file.name ≡ some file
      → file.services ≡ []
      → gen_loop pb root_scope (file.name ∷ names) ≡ gen_loop pb root_scope names
  unfolding gen_loop
  gen_loop-skip root_scope file names found e =
      rw found (rw e (bind-returns (gen_loop pb root_scope names)))

  pub gen_loop-add :
      (root_scope : List FileDescriptorProto) (file : FileDescriptorProto) (names : List String)
      (s : ServiceDescriptorProto) (more : List ServiceDescriptorProto) (r : GenResult)
      → lookup_file root_scope file.name ≡ some file
      → file.services ≡ s ∷ more
      → gen_file pb file root_scope ≡ returns (some r)
      → gen_loop pb root_scope (file.name ∷ names)
        ≡ (gen_loop pb root_scope names >>= λ results. returns (r ∷ results))
  unfolding gen_loop
  gen_loop-add root_scope file names s more r found e made = rw found (rw e (rw made))

  -- Asked for files that are all found, with message types that are all found, the plugin returns: for
  -- each file with services, in the order asked for, one result of the file's module name with
  -- `_grpc.rs` behind it, and nothing for a file without services.
  pub gen_names :
      (root_scope requested : List FileDescriptorProto)
      → All (IsRequestable pb root_scope) requested
      → (results : List GenResult) × (gen pb root_scope (map (λ f. f.name) requested)
          ≡ returns results)
        × (map (λ r. r.name) results ≡ generated_names pb requested)
  unfolding gen gen_loop
  gen_names root_scope [] h = ([], refl, refl)
  gen_names root_scope (f ∷ rest) (hf, h) =
      let (results, e, names) = gen_names root_scope rest h in
      elim (List-cases f.services) [
        | inl none_there ↦ (
          results,
          gen_loop-skip root_scope f (map (λ g. g.name) rest) hf.found none_there ∙ e,
          rw (none_there, generated_names) names,
        )
        | inr (s, more, there) ↦
            let (r, made, named) = gen_file-returns f root_scope s more there hf.resolves in
            (
              r ∷ results,
              gen_loop-add root_scope f (map (λ g. g.name) rest) s more r hf.found there made
                  ∙ rw e,
              rw there (λ i. named i ∷ names i),
            )
      ]
