-- ===== src/Tests/Protobufs.antt =====
-- A stand-in for the `protobuf` runtime: a string field is its key, its length and its bytes.
use grpc_rust.Prelude.{
  ℕ, ◌+◌, ◌*◌, ◌/◌, ◌%◌, ◌≤◌, ◌<◌, ◌≡◌, refl, ap, ◌∙◌, Bool, true, false, Option, none, some, [],
  ◌∷◌, ◌++◌, Bytes, length, eqb_refl, ◌==◌, take, drop, take-append_le, drop-append_le, take-length,
  drop-length, length-drop, bytes_eq, arith, if◌then◌else◌, Bool-cases, inl, inr,
}
use grpc_rust.Marshall.Utf8.{is_utf8}
use grpc_rust.Helloworld.Runtime.{Runtime, IsProtobuf}

abbrev field : ℕ → Bytes → Bytes
field n v = (n * 8 + 2) ∷ length v ∷ v

abbrev read_tag : Bytes → Option ((ℕ × ℕ) × Bytes)
read_tag [] = none
read_tag (b ∷ rest) = some ((b / 8, b % 8), rest)

abbrev read_string : Bytes → Option (Option Bytes × Bytes)
read_string [] = none
read_string (len ∷ rest) =
    if is_utf8 (take len rest) then some (some (take len rest), drop len rest) else none

abbrev at_end : Bytes → Bool
at_end [] = true
at_end (b ∷ rest) = false

abbrev is_there : Option Bytes → Bool
is_there none = false
is_there (some v) = true

abbrev same : Option Bytes → Option Bytes → Bool
same none none = true
same (some v) (some w) = bytes_eq v w
same (some v) none = false
same none (some w) = false

abbrev or_default : Option Bytes → Option Bytes
or_default none = some []
or_default (some v) = some v

-- The output has room for as many bytes as the size says.
abbrev sized : ℕ → Option Bytes → Option Bytes
sized size none = none
sized size (some o) = if length o == size then some o else none

abbrev pub toy_rt : Runtime
toy_rt = record {
  SingularField = Option Bytes;
  UnknownFields = Unit;
  WireType = ℕ;
  Input = Bytes;
  Output = Bytes;
  none_field = none;
  some_field = λ v. some v;
  as_ref = λ f. f;
  is_some = is_there;
  clear_field = λ f. none;
  set_default = or_default;
  take_field = λ f. (f, none);
  field_eq = same;
  no_unknown = tt;
  clear_unknown = λ u. tt;
  unknown_eq = λ u v. true;
  from_bytes = λ bytes. bytes;
  eof = λ i. some (at_end i, i);
  read_tag_unpack = read_tag;
  read_singular_string_into = λ w i f. read_string i;
  read_unknown_or_skip_group = λ n w i u. some (u, i);
  string_size = λ n v. length v + 2;
  unknown_fields_size = λ u. 0;
  write_string = λ n v o. some (o ++ field n v);
  write_unknown_fields = λ u o. some o;
  write_to_bytes = λ size writer. sized size (writer []);
}

pub string_at :
    (v more : Bytes) → is_utf8 v ≡ true → read_string (length v ∷ v ++ more) ≡ some (some v, more)
string_at v more u =
    let t : take (length v) (v ++ more) ≡ v =
      take-append_le (length v) v more (omega arith) ∙ take-length v in
    let d : drop (length v) (v ++ more) ≡ more =
      drop-append_le (length v) v more (omega arith)
      ∙ ap (λ (x : Bytes). x ++ more) (drop-length v) in
    rw (t, d) (rw u refl)

pub string_shorter :
    (i i' : Bytes) (f' : Option Bytes) → read_string i ≡ some (f', i') → length i' ≤ length i
string_shorter [] i' f' h = cc
string_shorter (len ∷ rest) i' f' h = elim (Bool-cases (is_utf8 (take len rest))) [
  | inl e ↦
      let h' = rw e at h in
      let there : drop len rest ≡ i' = cc in rw (← there) (omega (arith, length-drop len rest))
  | inr e ↦ (let h' = rw e at h in cc)
]

pub tag_shorter : (i i' : Bytes) (tag : ℕ × ℕ) → read_tag i ≡ some (tag, i') → length i' < length i
tag_shorter [] i' tag h = cc
tag_shorter (b ∷ rest) i' tag h = let there : rest ≡ i' = cc in rw (← there) (omega arith)

pub tag_at : (n : ℕ) (rest : Bytes) → read_tag ((n * 8 + 2) ∷ rest) ≡ some ((n, 2), rest)
tag_at n rest = ground arith

unfoldable pub toy_protobuf : IsProtobuf toy_rt
toy_protobuf = record {
  rest = λ i. i;
  written = λ o. o;
  empty = [];
  field_bytes = field;
  delimited = 2;
  as_ref_none = refl;
  as_ref_some = λ v. refl;
  written_empty = refl;
  string_written = λ n v o. (o ++ field n v, refl, refl);
  unknown_written = λ o. refl;
  string_sized = λ n v small. omega arith;
  unknown_sized = refl;
  bytes_written = λ size writer o e full. rw e (rw full (rw (eqb_refl size) refl));
  rest_from_bytes = λ bytes. refl;
  eof_at_end = λ i e. rw e refl;
  eof_before = λ i b bs e. rw e refl;
  eof_keeps = λ i i' ended e. cc;
  field_cons = λ n v. (n * 8 + 2, length v ∷ v, refl);
  string_read = λ n v more i f u fits e. (
    length v ∷ v ++ more,
    more,
    rw e (tag_at n (length v ∷ v ++ more)),
    string_at v more u,
    refl,
  );
  tag_consumes = λ i i' tag e. tag_shorter i i' tag e;
  string_consumes = λ w i i' f f' e. string_shorter i i' f' e;
  unknown_consumes = λ n w i i' u u' e. (let there : i ≡ i' = cc in rw there (omega arith));
}
