-- ===== src/Helloworld/Request.antt =====
-- `HelloRequest` of grpc-examples/src/helloworld.rs.
pub mod RoundTrip
pub mod Static
pub mod Accessors
use grpc_rust.Prelude.{
  ℕ, zero, suc, ◌+◌, ◌%◌, ◌^◌, Bool, true, false, ◌&&◌, Option, none, some, [], Bytes, length, ◌==◌,
  if◌then◌else◌,
}
use grpc_rust.Outcome.{Outcome, returns, stuck, ◌>>=◌, unwrap_none, expect}
use grpc_rust.Marshall.{Message}
use grpc_rust.Helloworld.Runtime.{Runtime}
use grpc_rust.Helloworld.Fields.{merge_fields}

module _ (rt : Runtime) where
  open rt use {SingularField, UnknownFields, WireType, Input, Output}

  pub record HelloRequest : Type 0 where
    pub name : SingularField
    pub unknown_fields : UnknownFields
    pub cached_size : ℕ

  -- `HelloRequest::new`, the derived default.
  unfoldable pub new : HelloRequest
  new = record { name = rt.none_field; unknown_fields = rt.no_unknown; cached_size = 0 }

  unfoldable pub clear_name : HelloRequest → HelloRequest
  clear_name self = record self { name = rt.clear_field self.name }

  unfoldable pub has_name : HelloRequest → Bool
  has_name self = rt.is_some self.name

  unfoldable pub set_name : Bytes → HelloRequest → HelloRequest
  set_name v self = record self { name = rt.some_field v }

  -- `mut_name`: the string that the pointer shows, beside the message.
  unfoldable pub mut_name : HelloRequest → Outcome (Bytes × HelloRequest)
  mut_name self =
      let field = if rt.is_some self.name then self.name else rt.set_default self.name in
      expect (rt.as_ref field) unwrap_none >>= λ v. returns (v, record self { name = field })

  abbrev or_empty : Option Bytes → Bytes
  or_empty (some v) = v
  or_empty none = []

  unfoldable pub take_name : HelloRequest → Bytes × HelloRequest
  take_name self =
      let (v, field) = rt.take_field self.name in (or_empty v, record self { name = field })

  unfoldable pub get_name : HelloRequest → Bytes
  get_name self = or_empty (rt.as_ref self.name)

  -- The match on the field number.
  unfoldable pub read_field : ℕ → WireType → Input → HelloRequest → Option (HelloRequest × Input)
  read_field field_number wire_type is self =
      if field_number == 1
      then elim (rt.read_singular_string_into wire_type is self.name) [
        | some (field, is') ↦ some (record self { name = field }, is')
        | none ↦ none
      ]
      else elim (rt.read_unknown_or_skip_group field_number wire_type is self.unknown_fields) [
        | some (unknown, is') ↦ some (record self { unknown_fields = unknown }, is')
        | none ↦ none
      ]

  unfoldable pub merge_from : ℕ → HelloRequest → Input → Outcome (Option HelloRequest)
  unfolding read_field
  merge_from fuel self is = merge_fields rt read_field fuel self is

  -- The size of the name field, if it is there.
  name_size : Option Bytes → ℕ
  name_size none = 0
  name_size (some value) = rt.string_size 1 value

  -- `compute_size` keeps the size in its cell.
  unfoldable pub compute_size : HelloRequest → ℕ × HelloRequest
  unfolding name_size
  compute_size self =
      let my_size =
        (name_size (rt.as_ref self.name) + rt.unknown_fields_size self.unknown_fields) % 2 ^ 32 in
      (my_size, record self { cached_size = my_size })

  write_name : Option Bytes → Output → Option Output
  write_name none os = some os
  write_name (some v) os = rt.write_string 1 v os

  unfoldable pub write_to_with_cached_sizes : HelloRequest → Output → Option Output
  unfolding write_name
  write_to_with_cached_sizes self os = elim (write_name (rt.as_ref self.name) os) [
    | none ↦ none
    | some os1 ↦ rt.write_unknown_fields self.unknown_fields os1
  ]

  unfoldable pub get_cached_size : HelloRequest → ℕ
  get_cached_size self = self.cached_size

  unfoldable pub get_unknown_fields : HelloRequest → UnknownFields
  get_unknown_fields self = self.unknown_fields

  -- What the holder of the pointer does with the fields is `change`.
  unfoldable pub mut_unknown_fields : (UnknownFields → UnknownFields) → HelloRequest → HelloRequest
  mut_unknown_fields change self = record self { unknown_fields = change self.unknown_fields }

  unfoldable pub clear : HelloRequest → HelloRequest
  unfolding clear_name
  clear self =
      let cleared = clear_name self in
      record cleared { unknown_fields = rt.clear_unknown cleared.unknown_fields }

  unfoldable pub eq : HelloRequest → HelloRequest → Bool
  eq self other =
      rt.field_eq self.name other.name && rt.unknown_eq self.unknown_fields other.unknown_fields

  -- The trait `Message`; every message is initialised. The input of `from_bytes` is read to its end,
  -- so the number of bytes is fuel enough.
  unfoldable pub message : Message HelloRequest
  message = record {
    write_to_bytes = λ m.
        let (size, m') = compute_size m in rt.write_to_bytes size (write_to_with_cached_sizes m');
    new = new;
    merge_from = λ m buf. merge_from (suc (length buf)) m (rt.from_bytes buf);
    check_initialized = λ m. returns tt;
  }
