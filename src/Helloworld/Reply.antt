-- ===== src/Helloworld/Reply.antt =====
-- `HelloReply` of grpc-examples/src/helloworld.rs.
pub mod RoundTrip
pub mod Static
pub mod Accessors
use grpc_rust.Prelude.{
  ℕ, zero, suc, ◌+◌, ◌%◌, ◌^◌, Bool, true, false, ◌&&◌, Option, none, some, [], Bytes, length, ◌==◌,
  if◌then◌else◌,
}
use grpc_rust.Outcome.{Outcome, returns, stuck, ◌>>=◌, unwrap_none, expect}
use grpc_rust.Marshall.{Message}
use grpc_rust.Helloworld.Runtime.{Runtime}
use grpc_rust.Helloworld.Fields.{merge_fields}

module _ (rt : Runtime) where
  open rt use {SingularField, UnknownFields, WireType, Input, Output}

  pub record HelloReply : Type 0 where
    pub message : SingularField
    pub unknown_fields : UnknownFields
    pub cached_size : ℕ

  -- `HelloReply::new`, the derived default.
  unfoldable pub new : HelloReply
  new = record { message = rt.none_field; unknown_fields = rt.no_unknown; cached_size = 0 }

  unfoldable pub clear_message : HelloReply → HelloReply
  clear_message self = record self { message = rt.clear_field self.message }

  unfoldable pub has_message : HelloReply → Bool
  has_message self = rt.is_some self.message

  unfoldable pub set_message : Bytes → HelloReply → HelloReply
  set_message v self = record self { message = rt.some_field v }

  -- `mut_message`: the string that the pointer shows, beside the message.
  unfoldable pub mut_message : HelloReply → Outcome (Bytes × HelloReply)
  mut_message self =
      let field = if rt.is_some self.message then self.message else rt.set_default self.message in
      expect (rt.as_ref field) unwrap_none >>= λ v. returns (v, record self { message = field })

  abbrev or_empty : Option Bytes → Bytes
  or_empty (some v) = v
  or_empty none = []

  unfoldable pub take_message : HelloReply → Bytes × HelloReply
  take_message self =
      let (v, field) = rt.take_field self.message in (or_empty v, record self { message = field })

  unfoldable pub get_message : HelloReply → Bytes
  get_message self = or_empty (rt.as_ref self.message)

  -- The match on the field number.
  unfoldable pub read_field : ℕ → WireType → Input → HelloReply → Option (HelloReply × Input)
  read_field field_number wire_type is self =
      if field_number == 1
      then elim (rt.read_singular_string_into wire_type is self.message) [
        | some (field, is') ↦ some (record self { message = field }, is')
        | none ↦ none
      ]
      else elim (rt.read_unknown_or_skip_group field_number wire_type is self.unknown_fields) [
        | some (unknown, is') ↦ some (record self { unknown_fields = unknown }, is')
        | none ↦ none
      ]

  unfoldable pub merge_from : ℕ → HelloReply → Input → Outcome (Option HelloReply)
  unfolding read_field
  merge_from fuel self is = merge_fields rt read_field fuel self is

  -- The size of the message field, if it is there.
  message_size : Option Bytes → ℕ
  message_size none = 0
  message_size (some value) = rt.string_size 1 value

  -- `compute_size` keeps the size in its cell.
  unfoldable pub compute_size : HelloReply → ℕ × HelloReply
  unfolding message_size
  compute_size self =
      let my_size =
        (message_size (rt.as_ref self.message) + rt.unknown_fields_size self.unknown_fields)
        % 2 ^ 32 in
      (my_size, record self { cached_size = my_size })

  write_message : Option Bytes → Output → Option Output
  write_message none os = some os
  write_message (some v) os = rt.write_string 1 v os

  unfoldable pub write_to_with_cached_sizes : HelloReply → Output → Option Output
  unfolding write_message
  write_to_with_cached_sizes self os = elim (write_message (rt.as_ref self.message) os) [
    | none ↦ none
    | some os1 ↦ rt.write_unknown_fields self.unknown_fields os1
  ]

  unfoldable pub get_cached_size : HelloReply → ℕ
  get_cached_size self = self.cached_size

  unfoldable pub get_unknown_fields : HelloReply → UnknownFields
  get_unknown_fields self = self.unknown_fields

  -- What the holder of the pointer does with the fields is `change`.
  unfoldable pub mut_unknown_fields : (UnknownFields → UnknownFields) → HelloReply → HelloReply
  mut_unknown_fields change self = record self { unknown_fields = change self.unknown_fields }

  unfoldable pub clear : HelloReply → HelloReply
  unfolding clear_message
  clear self =
      let cleared = clear_message self in
      record cleared { unknown_fields = rt.clear_unknown cleared.unknown_fields }

  unfoldable pub eq : HelloReply → HelloReply → Bool
  eq self other =
      rt.field_eq self.message other.message
      && rt.unknown_eq self.unknown_fields other.unknown_fields

  -- The trait `Message`; every message is initialised. The input of `from_bytes` is read to its end,
  -- so the number of bytes is fuel enough.
  unfoldable pub message : Message HelloReply
  message = record {
    write_to_bytes = λ m.
        let (size, m') = compute_size m in rt.write_to_bytes size (write_to_with_cached_sizes m');
    new = new;
    merge_from = λ m buf. merge_from (suc (length buf)) m (rt.from_bytes buf);
    check_initialized = λ m. returns tt;
  }
