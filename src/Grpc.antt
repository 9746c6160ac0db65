-- ===== src/Grpc.antt =====
-- src/grpc.rs: the length-prefixed message frames of gRPC.
-- A byte slice is a list of numbers; `usize` has 64 bits; both byte orders of the machine are covered.
pub mod Word
pub mod Parse
pub mod RoundTrip
pub mod Complete
use grpc_rust.Prelude.{
  ℕ, zero, suc, ◌+◌, ◌-◌, ◌%◌, ◌^◌, Option, none, some, List, [], ◌∷◌, ◌++◌, Bytes, length, take,
  drop, ltb, ◌==◌, if◌then◌else◌, ◌&&◌,
}
use grpc_rust.Outcome.{Outcome, returns, panics, ◌>>=◌, ◌>>◌}
use grpc_rust.Outcome.{compression_not_implemented, unknown_compression_flag, slice_out_of_range}
use Word.{Endian, load_u32, store_u32, to_be}

abbrev pub header_len : ℕ
header_len = 5

-- `stream[i]` where the caller has checked the length.
abbrev pub byte_at : Bytes → ℕ → ℕ
byte_at [] i = 0
byte_at (b ∷ bs) zero = b
byte_at (b ∷ bs) (suc i) = byte_at bs i

-- `&stream[from..to]`
unfoldable pub slice : Bytes → ℕ → ℕ → Outcome Bytes
slice stream from to =
    if ltb to from
    then panics slice_out_of_range
    else if ltb (length stream) to
    then panics slice_out_of_range
    else returns (take (to - from) (drop from stream))

-- The match on the compressed flag.
unfoldable pub check_flag : ℕ → Outcome (Unit {0})
check_flag flag =
    if flag == 0
    then returns tt
    else if flag == 1
    then panics compression_not_implemented
    else panics unknown_compression_flag

-- The length field: four bytes copied into a `u32` in memory order, then `to_be`.
unfoldable pub frame_len : Endian → Bytes → ℕ
frame_len endian stream =
    to_be endian
      (load_u32 endian (byte_at stream 1) (byte_at stream 2) (byte_at stream 3) (byte_at stream 4))

-- Return message and size consumed.
unfoldable pub parse_frame : Endian → Bytes → Outcome (Option (Bytes × ℕ))
unfolding check_flag slice
parse_frame endian stream = if ltb (length stream) header_len then returns none else do
  check_flag (byte_at stream 0)
  let end = (frame_len endian stream + header_len) % 2 ^ 64
  if ltb (length stream) end
      then returns none
      else do frame ← slice stream header_len end; returns (some (frame, end))

-- The guard `pos == stream.len()` of the match.
unfoldable pub complete : ℕ → Option (Bytes × ℕ) → Option Bytes
complete len none = none
complete len (some (bytes, pos)) = if pos == len then some bytes else none

unfoldable pub parse_frame_completely : Endian → Bytes → Outcome (Option Bytes)
unfolding complete
parse_frame_completely endian stream = do
  parsed ← parse_frame endian stream
  returns (complete (length stream) parsed)

unfoldable pub write_frame : Endian → Bytes → Bytes → Bytes
write_frame endian stream frame =
    stream ++ 0 ∷ [] ++ store_u32 endian (to_be endian (length frame % 2 ^ 32)) ++ frame
