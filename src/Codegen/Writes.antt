-- ===== src/Codegen/Writes.antt =====
-- The part of a `CodeWriter`'s behaviour that the theorems on src/codegen.rs rely on: which field
-- entries have been written.
use grpc_rust.Prelude.{
  ◌≡◌, ◌∙◌, refl, ap, sym, List, [], ◌∷◌, ◌++◌, String, append_assoc, append-nil,
}
use grpc_rust.Outcome.{Outcome, returns}
use grpc_rust.Codegen.Protobuf.{Write, Protobuf, ◌>>=◌, ◌>>◌}

abbrev pub Entry : Type 0
Entry = String × String

-- From every writer the statement returns, and it has added exactly the entries `xs`.
pub record Writes {W : Type 0} (entries : W → List Entry) (a : Write W) (xs : List Entry)
    : Type 0 where
  pub run : (w : W) → (w' : W) × (a w ≡ returns w') × (entries w' ≡ entries w ++ xs)

-- `CodeWriter`: the statements without a closure return; an entry is recorded where it is written,
-- and a statement with a closure adds what its closure adds.
pub record Tracks (pb : Protobuf) : Type 0 where
  pub entries : pb.Writer → List Entry
  pub write_generated_writes : Writes entries pb.write_generated []
  pub write_line_writes : (s : String) → Writes entries (pb.write_line s) []
  pub comment_writes : (s : String) → Writes entries (pb.comment s) []
  pub fn_def_writes : (s : String) → Writes entries (pb.fn_def s) []
  pub field_decl_writes : (k v : String) → Writes entries (pb.field_decl k v) []
  pub field_entry_writes : (k v : String) → Writes entries (pb.field_entry k v) ((k, v) ∷ [])
  pub def_fn_writes :
      (s : String) (body : Write pb.Writer) (xs : List Entry)
      → Writes entries body xs
      → Writes entries (pb.def_fn s body) xs
  pub pub_fn_writes :
      (s : String) (body : Write pb.Writer) (xs : List Entry)
      → Writes entries body xs
      → Writes entries (pb.pub_fn s body) xs
  pub block_writes :
      (s t : String) (body : Write pb.Writer) (xs : List Entry)
      → Writes entries body xs
      → Writes entries (pb.block s t body) xs
  pub expr_block_writes :
      (s : String) (body : Write pb.Writer) (xs : List Entry)
      → Writes entries body xs
      → Writes entries (pb.expr_block s body) xs
  pub pub_trait_writes :
      (s : String) (body : Write pb.Writer) (xs : List Entry)
      → Writes entries body xs
      → Writes entries (pb.pub_trait s body) xs
  pub pub_struct_writes :
      (s : String) (body : Write pb.Writer) (xs : List Entry)
      → Writes entries body xs
      → Writes entries (pb.pub_struct s body) xs
  pub impl_self_block_writes :
      (s : String) (body : Write pb.Writer) (xs : List Entry)
      → Writes entries body xs
      → Writes entries (pb.impl_self_block s body) xs
  pub impl_for_block_writes :
      (s t : String) (body : Write pb.Writer) (xs : List Entry)
      → Writes entries body xs
      → Writes entries (pb.impl_for_block s t body) xs

module _ {W : Type 0} {entries : W → List Entry} where
  pub Writes-then :
      {a b : Write W} {xs ys : List Entry}
      → Writes entries a xs
      → Writes entries b ys
      → Writes entries (a >> b) (xs ++ ys)
  unfolding ◌>>◌
  Writes-then {xs = xs} {ys = ys} ra rb = record {
    run = λ w.
        let (w1, e1, l1) = ra.run w in
        let (w2, e2, l2) = rb.run w1 in
        (w2, rw e1 e2, l2 ∙ ap (λ (t : List Entry). t ++ ys) l1 ∙ append_assoc (entries w) xs ys);
  }

  pub Writes-value :
      {A : Type 0} (m : Outcome A) (a : A) (f : A → Write W) {xs : List Entry}
      → m ≡ returns a
      → Writes entries (f a) xs
      → Writes entries (m >>= f) xs
  unfolding ◌>>=◌
  Writes-value m a f e r = record { run = λ w. let (w1, e1, l1) = r.run w in (w1, rw e e1, l1) }

  pub Writes-skip : Writes entries (λ w. returns w) []
  Writes-skip = record { run = λ w. (w, refl, sym (append-nil (entries w))) }

  -- A statement that writes no entry in front of one that does.
  pub Writes-quiet :
      {a b : Write W} {ys : List Entry}
      → Writes entries a []
      → Writes entries b ys
      → Writes entries (a >> b) ys
  Writes-quiet ra rb = Writes-then ra rb
