-- ===== src/Codegen/Entries.antt =====
-- Which method names the generated code of src/codegen.rs holds.
use Prim.Native.String.{◌++◌ as text_append}
use grpc_rust.Prelude.{
  ℕ, suc, ◌≡◌, refl, subst, List, [], ◌∷◌, map, concat, String, All, if◌then◌else◌, ◌==◌, Bool,
  true, false,
}
use text.Mathlib.TextLemmas.{append_assoc}
use grpc_rust.Outcome.{Outcome, returns, bind_both}
use grpc_rust.Codegen.Protobuf.{Write, Protobuf}
use grpc_rust.Codegen.Methods
use grpc_rust.Codegen.Methods.{
  MethodGen, method_path, name_entry, bool_entry, write_method_descriptor, write_client, input,
  output, sync_sig, async_sig,
}
use grpc_rust.Codegen.Services.{each_method, register, register_all}
use grpc_rust.Codegen.Writes.{
  Entry, Writes, Tracks, Writes-then, Writes-value, Writes-skip, Writes-quiet,
}

-- The descriptor of a method as generated code spells it.
-- As a string literal, and as a literal of Rust's `bool`.
abbrev quoted : String → String
quoted text = text_append "\"" (text_append text "\".to_string()")

abbrev spelled : Bool → String
spelled true = "true"
spelled false = "false"

name_entry_lem : (m : MethodGen) → name_entry m ≡ quoted (method_path m)
name_entry_lem m = simp append_assoc

bool_entry_lem : (b : Bool) → bool_entry b ≡ spelled b
bool_entry_lem true = refl
bool_entry_lem false = refl

abbrev pub descriptor_entries : MethodGen → List Entry
descriptor_entries m =
    ("name", quoted (method_path m))
    ∷ ("client_streaming", spelled m.proto.client_streaming)
    ∷ ("server_streaming", spelled m.proto.server_streaming)
    ∷ ("req_marshaller", "Box::new(::grpc::grpc_protobuf::MarshallerProtobuf)")
    ∷ ("resp_marshaller", "Box::new(::grpc::grpc_protobuf::MarshallerProtobuf)")
    ∷ []

abbrev pub all_descriptors : List MethodGen → List Entry
all_descriptors methods = concat (map descriptor_entries methods)

module _ (pb : Protobuf) where
  -- The two message types of a method are found.
  pub record Resolves (m : MethodGen) : Type 0 where
    pub input_name : String
    pub output_name : String
    pub input_found : pb.find_message m.root_scope m.proto.input_type ≡ returns input_name
    pub output_found : pb.find_message m.root_scope m.proto.output_type ≡ returns output_name

module _ (pb : Protobuf) (t : Tracks pb) where
  open t use {
    entries, write_line_writes, comment_writes, fn_def_writes, field_decl_writes,
    field_entry_writes, def_fn_writes, pub_fn_writes, block_writes, expr_block_writes,
    pub_trait_writes, pub_struct_writes, impl_self_block_writes, impl_for_block_writes,
  }

  entry-Writes :
      (key : String) {value spelling : String}
      → value ≡ spelling
      → Writes entries (pb.field_entry key value) ((key, spelling) ∷ [])
  entry-Writes key {value} {spelling} e =
      subst (λ text. Writes entries (pb.field_entry key value) ((key, text) ∷ [])) e
        (field_entry_writes key value)

  write_method_descriptor-Writes :
      (m : MethodGen) (before after : String)
      → Writes entries (write_method_descriptor pb m before after) (descriptor_entries m)
  unfolding write_method_descriptor
  write_method_descriptor-Writes m before after = block_writes _ _ _ _ (
      Writes-then (entry-Writes "name" (name_entry_lem m)) (
        Writes-then (entry-Writes "client_streaming" (bool_entry_lem m.proto.client_streaming)) (
          Writes-then (entry-Writes "server_streaming" (bool_entry_lem m.proto.server_streaming))
            (Writes-then (field_entry_writes _ _) (field_entry_writes _ _)))))

  input-returns :
      (m : MethodGen) (r : Resolves pb m)
      → input pb m ≡ returns (text_append "super::" r.input_name)
  unfolding input
  input-returns m r = rw r.input_found

  output-returns :
      (m : MethodGen) (r : Resolves pb m)
      → output pb m ≡ returns (text_append "super::" r.output_name)
  unfolding output
  output-returns m r = rw r.output_found

  write_client-Writes :
      (m : MethodGen) (signature : Outcome String) (sig call : String)
      → Resolves pb m
      → signature ≡ returns sig
      → Writes entries (write_client pb m signature call) (descriptor_entries m)
  unfolding write_client
  write_client-Writes m signature sig call r e = Writes-value _ _ _ r.input_found (
      Writes-value _ _ _ r.output_found (
        Writes-value _ _ _ e (
          def_fn_writes _ _ _ (
            Writes-value _ _ _ (input-returns m r) (
              Writes-value _ _ _ (output-returns m r)
                (Writes-then (write_method_descriptor-Writes m _ ";") (write_line_writes call)))))))

  sync_sig-returns :
      (m : MethodGen) → Resolves pb m → (sig : String) × (sync_sig pb m ≡ returns sig)
  unfolding sync_sig
  sync_sig-returns m r =
      (_, bind_both (input pb m) (output pb m) _ (input-returns m r) (output-returns m r))

  async_sig-returns :
      (m : MethodGen) → Resolves pb m → (sig : String) × (async_sig pb m ≡ returns sig)
  unfolding async_sig
  async_sig-returns m r =
      (_, bind_both (input pb m) (output pb m) _ (input-returns m r) (output-returns m r))

  pub write_sync_client-Writes :
      (m : MethodGen)
      → Resolves pb m
      → Writes entries (Methods.write_sync_client pb m) (descriptor_entries m)
  unfolding Methods.write_sync_client
  write_sync_client-Writes m r =
      let (sig, e) = sync_sig-returns m r in write_client-Writes m (sync_sig pb m) sig _ r e

  pub write_async_client-Writes :
      (m : MethodGen)
      → Resolves pb m
      → Writes entries (Methods.write_async_client pb m) (descriptor_entries m)
  unfolding Methods.write_async_client
  write_async_client-Writes m r =
      let (sig, e) = async_sig-returns m r in write_client-Writes m (async_sig pb m) sig _ r e

  pub write_sync_intf-Writes :
      (m : MethodGen) → Resolves pb m → Writes entries (Methods.write_sync_intf pb m) []
  unfolding Methods.write_sync_intf
  write_sync_intf-Writes m r =
      let (sig, e) = sync_sig-returns m r in Writes-value _ _ _ e (fn_def_writes sig)

  pub write_async_intf-Writes :
      (m : MethodGen) → Resolves pb m → Writes entries (Methods.write_async_intf pb m) []
  unfolding Methods.write_async_intf
  write_async_intf-Writes m r =
      let (sig, e) = async_sig-returns m r in Writes-value _ _ _ e (fn_def_writes sig)

  blank_line-Writes :
      (b : Bool) → Writes entries (if b then (λ w. returns w) else pb.write_line "") []
  blank_line-Writes true = Writes-skip
  blank_line-Writes false = write_line_writes ""

  -- A loop over the methods whose body writes `f m` writes them one after another.
  pub each_method-Writes :
      (i : ℕ) (body : MethodGen → Write pb.Writer) (f : MethodGen → List Entry)
      (ms : List MethodGen)
      → ((m : MethodGen) → Resolves pb m → Writes entries (body m) (f m))
      → All (Resolves pb) ms
      → Writes entries (each_method pb i body ms) (concat (map f ms))
  unfolding each_method
  each_method-Writes i body f [] h r = Writes-skip
  each_method-Writes i body f (m ∷ ms) h (rm, r) =
      Writes-quiet (blank_line-Writes (i == 0))
        (Writes-then (h m rm) (each_method-Writes (suc i) body f ms h r))

  register-Writes : (m : MethodGen) → Writes entries (register pb m) (descriptor_entries m)
  unfolding register
  register-Writes m = block_writes _ _ _ _ (
      Writes-then (write_method_descriptor-Writes m "" ",")
        (block_writes _ _ _ _ (Writes-quiet (write_line_writes _) (write_line_writes _))))

  pub register_all-Writes :
      (ms : List MethodGen) → Writes entries (register_all pb ms) (all_descriptors ms)
  unfolding register_all
  register_all-Writes [] = Writes-skip
  register_all-Writes (m ∷ ms) = Writes-then (register-Writes m) (register_all-Writes ms)
