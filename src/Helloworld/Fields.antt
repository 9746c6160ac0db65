-- ===== src/Helloworld/Fields.antt =====
-- The loop that every `merge_from` of grpc-examples/src/helloworld.rs runs, over its match on the
-- field number.
use grpc_rust.Prelude.{
  ℕ, zero, suc, ◌^◌, ◌≤◌, ◌<◌, ◌≡◌, ◌≢◌, ◌∙◌, refl, ap, sym, append-nil, true, false, Option, none,
  some, Option-cases, inl, inr, [], ◌++◌, Bytes, length, arith,
}
use grpc_rust.Outcome.{Outcome, returns, stuck}
use grpc_rust.Marshall.Utf8.{is_utf8}
use grpc_rust.Helloworld.Runtime.{Runtime, IsProtobuf}

-- A string that a field can carry.
abbrev pub IsText : Bytes → Type 0
IsText v = (is_utf8 v ≡ true) × (length v < 2 ^ 32)

module _ {M : Type 0} (rt : Runtime)
    (read_field : ℕ → rt.WireType → rt.Input → M → Option (M × rt.Input)) where
  -- `while !try!(is.eof())`, a field in each round.
  unfoldable pub merge_fields : ℕ → M → rt.Input → Outcome (Option M)
  merge_fields zero self is = stuck
  merge_fields (suc fuel) self is = elim (rt.eof is) [
    | none ↦ returns none
    | some (true, is1) ↦ returns (some self)
    | some (false, is1) ↦ elim (rt.read_tag_unpack is1) [
      | none ↦ returns none
      | some ((field_number, wire_type), is2) ↦ elim (read_field field_number wire_type is2 self) [
        | none ↦ returns none
        | some (self', is3) ↦ merge_fields fuel self' is3
      ]
    ]
  ]

  module _ (p : IsProtobuf rt) where
    open p use {rest, field_bytes, delimited}

    merge_fields-end :
        (fuel : ℕ) (self : M) (is : rt.Input)
        → rest is ≡ []
        → merge_fields (suc fuel) self is ≡ returns (some self)
    unfolding merge_fields
    merge_fields-end fuel self is e = rw (p.eof_at_end is e, merge_fields) refl

    -- A written string field is read in one round, if the match puts it into the message.
    merge_fields-string :
        (fuel n : ℕ) (v more : Bytes) (self self' : M) (is : rt.Input) (f : rt.SingularField)
        → is_utf8 v ≡ true
        → length v < 2 ^ 32
        → rest is ≡ field_bytes n v ++ more
        → ((i1 i2 : rt.Input)
            → rt.read_singular_string_into delimited i1 f ≡ some (rt.some_field v, i2)
            → read_field n delimited i1 self ≡ some (self', i2))
        → (is' : rt.Input) × (rest is' ≡ more)
          × (merge_fields (suc fuel) self is ≡ merge_fields fuel self' is')
    unfolding merge_fields
    merge_fields-string fuel n v more self self' is f u fits e takes =
        let (b, bs, c) = p.field_cons n v in
        let (i1, i2, tag, string, left) = p.string_read n v more is f u fits e in
        (
          i2,
          left,
          rw (p.eof_before is b (bs ++ more) (e ∙ ap (λ (t : Bytes). t ++ more) c), merge_fields)
              (rw tag (rw (takes i1 i2 string) refl)),
        )

    -- A message that is one written string field is read whole.
    pub merge_fields-one :
        (n : ℕ) (v : Bytes) (self self' : M) (f : rt.SingularField)
        → IsText v
        → ((i1 i2 : rt.Input)
            → rt.read_singular_string_into delimited i1 f ≡ some (rt.some_field v, i2)
            → read_field n delimited i1 self ≡ some (self', i2))
        → merge_fields (suc (length (field_bytes n v))) self (rt.from_bytes (field_bytes n v))
          ≡ returns (some self')
    merge_fields-one n v self self' f (u, fits) takes =
        let bytes = field_bytes n v in
        let (b, bs, c) = p.field_cons n v in
        let (is, left, e) =
          merge_fields-string (length bytes) n v [] self self' (rt.from_bytes bytes) f u fits
            (p.rest_from_bytes bytes ∙ sym (append-nil bytes)) takes in
        e
        ∙ ap (λ (fuel : ℕ). merge_fields fuel self' is) (ap length c)
        ∙ merge_fields-end (length bs) self' is left

    -- Every round reads a tag, so fuel above the bytes that are left is enough.
    pub merge_fields-ne-stuck :
        ((n : ℕ) (w : rt.WireType) (i i' : rt.Input) (m m' : M)
          → read_field n w i m ≡ some (m', i')
          → length (rest i') ≤ length (rest i))
        → (fuel : ℕ) (self : M) (is : rt.Input) → length (rest is) < fuel
        → merge_fields fuel self is ≢ stuck
    unfolding merge_fields
    merge_fields-ne-stuck consumes zero self is h = absurd (omega arith)
    merge_fields-ne-stuck consumes (suc fuel) self is h = elim (Option-cases (rt.eof is)) [
      | inl e ↦ rw (e, merge_fields) (λ x. cc)
      | inr ((true, is1), e) ↦ rw (e, merge_fields) (λ x. cc)
      | inr ((false, is1), e) ↦
          rw (e, merge_fields)
            (elim (Option-cases (rt.read_tag_unpack is1)) [
              | inl t ↦ rw t (λ x. cc)
              | inr (((n, w), is2), t) ↦ rw t (elim (Option-cases (read_field n w is2 self)) [
                | inl r ↦ rw r (λ x. cc)
                | inr ((self', is3), r) ↦ rw r (
                    merge_fields-ne-stuck consumes fuel self' is3 (
                      omega (
                        arith,
                        ap length (p.eof_keeps is is1 false e),
                        p.tag_consumes is1 is2 (n, w) t,
                        consumes n w is2 is3 self self' r,
                      )))
              ])
            ])
    ]
