-- ===== src/Helloworld/Reply/RoundTrip.antt =====
-- `HelloReply` on the wire, and back.
use grpc_rust.Prelude.{sym, ◌<◌, ◌^◌, length, arith, ◌≡◌, ◌∙◌, refl, ap, some, ◌++◌, Bytes}
use grpc_rust.Outcome.{returns}
use grpc_rust.Marshall.{Carries, marshaller_protobuf, marshaller_protobuf-Carries}
use grpc_rust.Helloworld.Runtime.{Runtime, IsProtobuf}
use grpc_rust.Helloworld.Fields.{IsText, merge_fields-one}
use grpc_rust.Helloworld.Reply.{
  HelloReply, new, set_message, read_field, merge_from, compute_size, write_to_with_cached_sizes,
  message,
}

module _ (rt : Runtime) (p : IsProtobuf rt) where
  -- A message with a text, and its wire form.
  abbrev pub saying : Bytes → HelloReply rt
  saying v = set_message rt v (new rt)

  -- The size that is computed is the number of bytes that are written.
  compute_size_lem :
      (v : Bytes)
      → length (p.field_bytes 1 v) < 2 ^ 32
      → (compute_size rt (saying v)).0 ≡ length (p.field_bytes 1 v)
  unfolding compute_size set_message new
  compute_size_lem v small =
      rw (p.as_ref_some v) (omega (arith, p.string_sized 1 v small, p.unknown_sized))

  written_lem :
      (v : Bytes)
      → length (p.field_bytes 1 v) < 2 ^ 32
      → (message rt).write_to_bytes (saying v) ≡ some (p.field_bytes 1 v)
  unfolding message compute_size write_to_with_cached_sizes set_message new
  written_lem v small =
      let (o, e, w) = p.string_written 1 v p.empty in
      let whole = w ∙ ap (λ (t : Bytes). t ++ p.field_bytes 1 v) p.written_empty in
      p.bytes_written _ _ o
        (rw (p.as_ref_some v, write_to_with_cached_sizes) (rw e (rw (p.unknown_written o) refl)))
        (ap length whole ∙ sym (compute_size_lem v small))
      ∙ ap (λ (t : Bytes). some t) whole

  takes_message :
      (v : Bytes) (i1 i2 : rt.Input)
      → rt.read_singular_string_into p.delimited i1 (new rt).message ≡ some (rt.some_field v, i2)
      → read_field rt 1 p.delimited i1 (new rt) ≡ some (saying v, i2)
  unfolding read_field set_message
  takes_message v i1 i2 e = rw e refl

  read_lem :
      (v : Bytes)
      → IsText v
      → (message rt).merge_from (message rt).new (p.field_bytes 1 v) ≡ returns (some (saying v))
  unfolding message merge_from
  read_lem v text =
      merge_fields-one rt (read_field rt) p 1 v (new rt) (saying v) (new rt).message text
        (takes_message v)

  pub saying-Carries :
      (v : Bytes)
      → IsText v
      → length (p.field_bytes 1 v) < 2 ^ 32
      → Carries (marshaller_protobuf (message rt)) (saying v) (p.field_bytes 1 v)
  saying-Carries v h small =
      marshaller_protobuf-Carries (message rt) (saying v) (p.field_bytes 1 v) (written_lem v small)
        (read_lem v h) (unfold message in refl)
