-- ===== src/Tests/Framing.antt =====
-- The tests of src/grpc.rs, and the theorems on frames at concrete inputs.
use grpc_rust.Prelude.{
  ℕ, ◌<◌, ◌≤◌, ◌^◌, ◌≡◌, refl, ◌⊎◌, none, some, [], ◌∷◌, ◌++◌, Bytes, ascii, arith, length, drop,
}
use grpc_rust.Outcome.{returns, panics, compression_not_implemented, unknown_compression_flag}
use grpc_rust.Grpc.{frame_len, parse_frame, parse_frame_completely, write_frame}
use mathlib.Core.Logic.{◌↔◌}
use grpc_rust.Grpc.Complete.{parse_frame_completely_exact}
use grpc_rust.Grpc.Word.{little, big, load_u32, store_u32, to_be}
use grpc_rust.Grpc.Parse.{parse_frame-append, parse_frame_panics}
use grpc_rust.Grpc.RoundTrip.{
  wire, parse_frame_completely-write_frame, parse_frame_sound, parse_frame-prefix,
}

abbrev world : Bytes
world = 10 ∷ 5 ∷ ascii "world"

abbrev world_frame : Bytes
world_frame = 0 ∷ 0 ∷ 0 ∷ 0 ∷ 7 ∷ world

test_empty : parse_frame little [] ≡ returns none
unfolding parse_frame
test_empty = refl

test_short : parse_frame little (ascii "14sc") ≡ returns none
unfolding parse_frame
test_short = refl

test_incomplete : parse_frame little (0 ∷ 0 ∷ 0 ∷ 0 ∷ 7 ∷ 10 ∷ 5 ∷ ascii "wo") ≡ returns none
unfolding parse_frame frame_len load_u32 to_be
test_incomplete = refl

test_complete : parse_frame little world_frame ≡ returns (some (world, 12))
unfolding parse_frame frame_len load_u32 to_be
test_complete = refl

test_complete_big : parse_frame big world_frame ≡ returns (some (world, 12))
unfolding parse_frame frame_len load_u32 to_be
test_complete_big = refl

test_written : write_frame little [] world ≡ world_frame
unfolding write_frame store_u32 to_be
test_written = refl

test_compressed : parse_frame little (1 ∷ 0 ∷ 0 ∷ 0 ∷ 0 ∷ []) ≡ panics compression_not_implemented
unfolding parse_frame
test_compressed = refl

parse_frame_completely-write_frame_example :
    (write_frame little (7 ∷ []) world ≡ 7 ∷ 0 ∷ 0 ∷ 0 ∷ 0 ∷ 7 ∷ world)
    × (parse_frame_completely little (write_frame little [] world) ≡ returns (some world))
parse_frame_completely-write_frame_example =
    parse_frame_completely-write_frame little (7 ∷ []) world

parse_frame_sound_example :
    (world_frame ++ 9 ∷ [] ≡ wire world ++ drop 12 (world_frame ++ 9 ∷ []))
    × (length world < 2 ^ 32)
    × (◌≡◌ {A = ℕ} 12 (length (wire world)))
parse_frame_sound_example =
    parse_frame_sound little (world_frame ++ 9 ∷ []) world 12 (omega arith)
      (parse_frame-append little world_frame (9 ∷ []) world 12 test_complete)

parse_frame-prefix_example :
    parse_frame little (0 ∷ 0 ∷ 0 ∷ 0 ∷ 7 ∷ 10 ∷ 5 ∷ ascii "worl") ≡ returns none
parse_frame-prefix_example =
    parse_frame-prefix little world (0 ∷ 0 ∷ 0 ∷ 0 ∷ 7 ∷ 10 ∷ 5 ∷ ascii "worl") [] b'd'
      (omega arith) refl

parse_frame_panics_example :
    (5 ≤ 5)
    × (((◌≡◌ {A = ℕ} 1 1) × (compression_not_implemented ≡ compression_not_implemented))
        ⊎ ((2 ≤ 1) × (compression_not_implemented ≡ unknown_compression_flag)))
parse_frame_panics_example =
    parse_frame_panics little (1 ∷ 0 ∷ 0 ∷ 0 ∷ 0 ∷ []) compression_not_implemented test_compressed

parse_frame_completely_exact_example :
    (parse_frame_completely little world_frame ≡ returns (some world))
    ↔ ((world_frame ≡ wire world) × (length world < 2 ^ 32))
parse_frame_completely_exact_example =
    parse_frame_completely_exact little world_frame world (omega arith)
