-- ===== src/Tests/Printing.antt =====
-- A code writer that prints, and the descriptors of grpc-examples/helloworld.proto.
use Prim.Native.String.{◌++◌ as text_append}
use text.Mathlib.Text.{◌==◌ as str_eq}
use grpc_rust.Prelude.{
  ℕ, zero, suc, refl, sym, false, List, [], ◌∷◌, ◌++◌, append-nil, String, if◌then◌else◌,
}
use grpc_rust.Outcome.{Outcome, returns, panics, no_entry, ◌>>=◌ as bind}
use grpc_rust.Codegen.Protobuf.{
  MethodDescriptorProto, ServiceDescriptorProto, FileDescriptorProto, Write, Protobuf,
}
use grpc_rust.Codegen.Writes.{Entry, Writes, Tracks}

-- The lines so far, the depth of the block, and the field entries so far.
pub record Printer : Type 0 where
  pub lines : List String
  pub depth : ℕ
  pub fields : List Entry

abbrev pub indent : ℕ → String → String
indent zero s = s
indent (suc n) s = text_append "    " (indent n s)

abbrev pub print : String → Write Printer
print s w =
    returns (record w { lines = w.lines ++ (if str_eq s "" then "" else indent w.depth s) ∷ [] })

abbrev pub print_block : String → String → Write Printer → Write Printer
print_block first final body w = bind (print first w) λ w1.
    bind (body (record w1 { depth = suc w.depth }))
      λ w2. print final (record w2 { depth = w.depth })

abbrev pub braces : String → Write Printer → Write Printer
braces s body = print_block (text_append s " {") "}" body

abbrev pub print_entry : String → String → Write Printer
print_entry k v w =
    bind (print (text_append k (text_append ": " (text_append v ","))) w)
      λ w1. returns (record w1 { fields = w1.fields ++ (k, v) ∷ [] })

abbrev pub rust_name : String → Outcome String
rust_name s =
    if str_eq s ".helloworld.HelloRequest"
    then returns "helloworld::HelloRequest"
    else if str_eq s ".helloworld.HelloReply"
    then returns "helloworld::HelloReply"
    else panics no_entry

abbrev pub printing : Protobuf
printing = record {
  Writer = Printer;
  new_writer = record { lines = []; depth = 0; fields = [] };
  content = λ w. [];
  write_generated = print "// This file is generated. Do not edit";
  write_line = print;
  comment = λ s. print (text_append "// " s);
  fn_def = λ s. print (text_append "fn " (text_append s ";"));
  field_entry = print_entry;
  field_decl = λ k v. print (text_append k (text_append ": " (text_append v ",")));
  def_fn = λ s. braces (text_append "fn " s);
  pub_fn = λ s. braces (text_append "pub fn " s);
  block = print_block;
  expr_block = braces;
  pub_trait = λ s. braces (text_append "pub trait " s);
  pub_struct = λ s. braces (text_append "pub struct " s);
  impl_self_block = λ s. braces (text_append "impl " s);
  impl_for_block = λ s t. braces (text_append "impl " (text_append s (text_append " for " t)));
  find_message = λ files s. rust_name s;
  proto_path_to_rust_mod = λ s. if str_eq s "helloworld.proto" then "helloworld" else s;
}

pub print-Writes : (s : String) → Writes (λ (w : Printer). w.fields) (print s) []
print-Writes s = record {
  run = λ w. (
    record w { lines = w.lines ++ (if str_eq s "" then "" else indent w.depth s) ∷ [] },
    refl,
    sym (append-nil w.fields),
  );
}

abbrev pub say_hello : MethodDescriptorProto
say_hello = record {
  name = "SayHello";
  input_type = ".helloworld.HelloRequest";
  output_type = ".helloworld.HelloReply";
  client_streaming = false;
  server_streaming = false;
}

abbrev pub greeter : ServiceDescriptorProto
greeter = record { name = "Greeter"; methods = say_hello ∷ [] }

abbrev pub helloworld : FileDescriptorProto
helloworld = record {
  name = "helloworld.proto";
  package_name = "helloworld";
  services = greeter ∷ [];
}

abbrev pub messages_only : FileDescriptorProto
messages_only = record { name = "messages.proto"; package_name = ""; services = [] }

abbrev pub printed : String → Printer → Printer
printed s w = record w { lines = w.lines ++ (if str_eq s "" then "" else indent w.depth s) ∷ [] }

pub print_block-Writes :
    (first final : String) (body : Write Printer) (xs : List Entry)
    → Writes (λ (w : Printer). w.fields) body xs
    → Writes (λ (w : Printer). w.fields) (print_block first final body) xs
print_block-Writes first final body xs r = record {
  run = λ w.
      let (w2, e, l) = r.run (record (printed first w) { depth = suc w.depth }) in
      (printed final (record w2 { depth = w.depth }), rw e, l);
}

pub braces-Writes :
    (s : String) (body : Write Printer) (xs : List Entry)
    → Writes (λ (w : Printer). w.fields) body xs
    → Writes (λ (w : Printer). w.fields) (braces s body) xs
braces-Writes s body xs r = print_block-Writes (text_append s " {") "}" body xs r

abbrev pub printing_tracks : Tracks printing
printing_tracks = record {
  entries = λ w. w.fields;
  write_generated_writes = print-Writes "// This file is generated. Do not edit";
  write_line_writes = λ s. print-Writes s;
  comment_writes = λ s. print-Writes _;
  fn_def_writes = λ s. print-Writes _;
  field_decl_writes = λ k v. print-Writes _;
  field_entry_writes = λ k v. record { run = λ w. (_, refl, refl) };
  def_fn_writes = λ s body xs r. braces-Writes (text_append "fn " s) body xs r;
  pub_fn_writes = λ s body xs r. braces-Writes (text_append "pub fn " s) body xs r;
  block_writes = λ s t body xs r. print_block-Writes s t body xs r;
  expr_block_writes = λ s body xs r. braces-Writes s body xs r;
  pub_trait_writes = λ s body xs r. braces-Writes (text_append "pub trait " s) body xs r;
  pub_struct_writes = λ s body xs r. braces-Writes (text_append "pub struct " s) body xs r;
  impl_self_block_writes = λ s body xs r. braces-Writes (text_append "impl " s) body xs r;
  impl_for_block_writes = λ s t body xs r.
      braces-Writes (text_append "impl " (text_append s (text_append " for " t))) body xs r;
}
