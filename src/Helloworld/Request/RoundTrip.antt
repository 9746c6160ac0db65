-- ===== src/Helloworld/Request/RoundTrip.antt =====
-- `HelloRequest` on the wire, and back.
use grpc_rust.Prelude.{
  sym, ◌<◌, ◌^◌, ℕ, suc, ◌≤◌, ◌≡◌, ◌≢◌, ◌∙◌, refl, ap, some, Option-cases, Bool-cases, inl, inr,
  ◌++◌, Bytes, length, ◌==◌, arith,
}
use grpc_rust.Outcome.{returns, stuck}
use grpc_rust.Marshall.{Carries, marshaller_protobuf, marshaller_protobuf-Carries}
use grpc_rust.Helloworld.Runtime.{Runtime, IsProtobuf}
use grpc_rust.Helloworld.Fields.{IsText, merge_fields-one, merge_fields-ne-stuck}
use grpc_rust.Helloworld.Request.{
  HelloRequest, new, set_name, read_field, merge_from, compute_size, write_to_with_cached_sizes,
  message,
}

module _ (rt : Runtime) (p : IsProtobuf rt) where
  -- A message with a name, and its wire form.
  abbrev pub named : Bytes → HelloRequest rt
  named v = set_name rt v (new rt)

  -- The size that is computed is the number of bytes that are written.
  compute_size_lem :
      (v : Bytes)
      → length (p.field_bytes 1 v) < 2 ^ 32
      → (compute_size rt (named v)).0 ≡ length (p.field_bytes 1 v)
  unfolding compute_size set_name new
  compute_size_lem v small =
      rw (p.as_ref_some v) (omega (arith, p.string_sized 1 v small, p.unknown_sized))

  written_lem :
      (v : Bytes)
      → length (p.field_bytes 1 v) < 2 ^ 32
      → (message rt).write_to_bytes (named v) ≡ some (p.field_bytes 1 v)
  unfolding message compute_size write_to_with_cached_sizes set_name new
  written_lem v small =
      let (o, e, w) = p.string_written 1 v p.empty in
      let whole = w ∙ ap (λ (t : Bytes). t ++ p.field_bytes 1 v) p.written_empty in
      p.bytes_written _ _ o
        (rw (p.as_ref_some v, write_to_with_cached_sizes) (rw e (rw (p.unknown_written o) refl)))
        (ap length whole ∙ sym (compute_size_lem v small))
      ∙ ap (λ (t : Bytes). some t) whole

  takes_name :
      (v : Bytes) (i1 i2 : rt.Input)
      → rt.read_singular_string_into p.delimited i1 (new rt).name ≡ some (rt.some_field v, i2)
      → read_field rt 1 p.delimited i1 (new rt) ≡ some (named v, i2)
  unfolding read_field set_name
  takes_name v i1 i2 e = rw e refl

  read_lem :
      (v : Bytes)
      → IsText v
      → (message rt).merge_from (message rt).new (p.field_bytes 1 v) ≡ returns (some (named v))
  unfolding message merge_from
  read_lem v text =
      merge_fields-one rt (read_field rt) p 1 v (new rt) (named v) (new rt).name text (takes_name v)

  -- A request with any UTF-8 name shorter than 2 ^ 32 bytes, whose wire form is also that short, is
  -- written as the wire form of its field, with the size that is computed for it, and read back as the
  -- same message.
  pub named-Carries :
      (v : Bytes)
      → IsText v
      → length (p.field_bytes 1 v) < 2 ^ 32
      → Carries (marshaller_protobuf (message rt)) (named v) (p.field_bytes 1 v)
  named-Carries v h small =
      marshaller_protobuf-Carries (message rt) (named v) (p.field_bytes 1 v) (written_lem v small)
        (read_lem v h) (unfold message in refl)

  read_field_consumes :
      (n : ℕ) (w : rt.WireType) (i i' : rt.Input) (m m' : HelloRequest rt)
      → read_field rt n w i m ≡ some (m', i')
      → length (p.rest i') ≤ length (p.rest i)
  unfolding read_field
  read_field_consumes n w i i' m m' h = elim (Bool-cases (n == 1)) [
    | inl one ↦
        let h1 = rw one at h in
        elim (Option-cases (rt.read_singular_string_into w i m.name)) [
          | inl e ↦ (let h2 = rw e at h1 in cc)
          | inr ((f, i1), e) ↦
              let h2 = rw e at h1 in
              let same : i1 ≡ i' = cc in rw (← same) (p.string_consumes w i i1 m.name f e)
        ]
    | inr other ↦
        let h1 = rw other at h in
        elim (Option-cases (rt.read_unknown_or_skip_group n w i m.unknown_fields)) [
          | inl e ↦ (let h2 = rw e at h1 in cc)
          | inr ((u, i1), e) ↦
              let h2 = rw e at h1 in
              let same : i1 ≡ i' = cc in
              rw (← same) (p.unknown_consumes n w i i1 m.unknown_fields u e)
        ]
  ]

  -- The loop of `merge_from` ends on every input.
  merge_from-ne-stuck :
      (m : HelloRequest rt) (bytes : Bytes) → (message rt).merge_from m bytes ≢ stuck
  unfolding message merge_from
  merge_from-ne-stuck m bytes =
      merge_fields-ne-stuck rt (read_field rt) p read_field_consumes (suc (length bytes)) m
        (rt.from_bytes bytes) (omega (arith, ap length (p.rest_from_bytes bytes)))
