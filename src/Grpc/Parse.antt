-- ===== src/Grpc/Parse.antt =====
-- What `parse_frame` of src/grpc.rs does on any input.
use grpc_rust.Prelude.{
  ℕ, ◌+◌, ◌^◌, ◌≤◌, ◌<◌, ◌≡◌, refl, ◌∙◌, ◌≢◌, ◌⊎◌, inl, inr, Option, none, some, [], ◌∷◌, ◌++◌,
  Bytes, length, take, drop, arith, length-append, length-take, length-drop, take-append_le,
  drop-append_le,
}
use grpc_rust.Outcome.{
  Panic, Outcome, returns, panics, stuck, compression_not_implemented, unknown_compression_flag,
}
use grpc_rust.Grpc.{byte_at, frame_len, parse_frame}
use grpc_rust.Grpc.Word.{Endian, to_be-load_u32_lt}

pub frame_len-lt : (endian : Endian) (stream : Bytes) → frame_len endian stream < 2 ^ 32
unfolding frame_len
frame_len-lt endian stream = to_be-load_u32_lt endian _ _ _ _

-- The parts of a successful parse.
pub record Parsed (endian : Endian) (stream frame : Bytes) (pos : ℕ) : Type 0 where
  pub has_header : 5 ≤ length stream
  pub flag : byte_at stream 0 ≡ 0
  pub pos_eq : pos ≡ frame_len endian stream + 5
  pub within : pos ≤ length stream
  pub frame_eq : frame ≡ take (frame_len endian stream) (drop 5 stream)

pub parse_frame-Parsed :
    (endian : Endian) (stream frame : Bytes) (pos : ℕ)
    → parse_frame endian stream ≡ returns (some (frame, pos))
    → Parsed endian stream frame pos
unfolding parse_frame
parse_frame-Parsed endian stream frame pos h = ground (arith, frame_len-lt endian stream)

pub Parsed-parse_frame :
    {endian : Endian} {stream frame : Bytes} {pos : ℕ}
    → Parsed endian stream frame pos
    → parse_frame endian stream ≡ returns (some (frame, pos))
unfolding parse_frame
Parsed-parse_frame {endian} {stream} p = ground (arith, frame_len-lt endian stream)

-- A frame takes its header and its bytes, at least five in all, and no more than there are.
pub parse_frame_bounds :
    (endian : Endian) (stream frame : Bytes) (pos : ℕ)
    → parse_frame endian stream ≡ returns (some (frame, pos))
    → (pos ≡ length frame + 5) × (pos ≤ length stream)
parse_frame_bounds endian stream frame pos h =
    let p = parse_frame-Parsed endian stream frame pos h in
    let e = length-take (frame_len endian stream) (drop 5 stream) in
    let d = length-drop 5 stream in
    let f = p.frame_eq in ground (arith, e, d, p.pos_eq, p.within, f)

frame_len-append :
    (endian : Endian) (stream more : Bytes)
    → 5 ≤ length stream
    → frame_len endian (stream ++ more) ≡ frame_len endian stream
unfolding frame_len
frame_len-append endian (a ∷ b ∷ c ∷ d ∷ e ∷ rest) more h = refl
frame_len-append endian (a ∷ b ∷ c ∷ d ∷ []) more h = absurd (omega arith)
frame_len-append endian (a ∷ b ∷ c ∷ []) more h = absurd (omega arith)
frame_len-append endian (a ∷ b ∷ []) more h = absurd (omega arith)
frame_len-append endian (a ∷ []) more h = absurd (omega arith)
frame_len-append endian [] more h = absurd (omega arith)

byte_at-append_zero :
    (stream more : Bytes) → 5 ≤ length stream → byte_at (stream ++ more) 0 ≡ byte_at stream 0
byte_at-append_zero [] more h = absurd (omega arith)
byte_at-append_zero (a ∷ rest) more h = refl

-- Bytes that arrive behind a complete frame do not change how it is read.
pub parse_frame-append :
    (endian : Endian) (stream more frame : Bytes) (pos : ℕ)
    → parse_frame endian stream ≡ returns (some (frame, pos))
    → parse_frame endian (stream ++ more) ≡ returns (some (frame, pos))
parse_frame-append endian stream more frame pos h =
    let p = parse_frame-Parsed endian stream frame pos h in
    let l = frame_len-append endian stream more p.has_header in
    Parsed-parse_frame (record {
      has_header = omega (arith, length-append stream more, p.has_header);
      flag = byte_at-append_zero stream more p.has_header ∙ p.flag;
      pos_eq = omega (arith, l, p.pos_eq);
      within = omega (arith, length-append stream more, p.within);
      frame_eq =
          rw
            (
              l,
              drop-append_le 5 stream more p.has_header,
              take-append_le (frame_len endian stream) (drop 5 stream) more
                  (omega (arith, length-drop 5 stream, p.pos_eq, p.within)),
            )
            p.frame_eq;
    })

-- The panics of `parse_frame`: only on a header whose flag is not 0, and one for each kind of flag.
-- In particular no slice is out of range.
pub parse_frame_panics :
    (endian : Endian) (stream : Bytes) (p : Panic)
    → parse_frame endian stream ≡ panics p
    → (5 ≤ length stream)
      × (((byte_at stream 0 ≡ 1) × (p ≡ compression_not_implemented))
          ⊎ ((2 ≤ byte_at stream 0) × (p ≡ unknown_compression_flag)))
unfolding parse_frame
parse_frame_panics endian stream p h = ground (arith, frame_len-lt endian stream)

pub parse_frame-append_panics :
    (endian : Endian) (stream more : Bytes) (p : Panic)
    → parse_frame endian stream ≡ panics p
    → parse_frame endian (stream ++ more) ≡ panics p
unfolding parse_frame
parse_frame-append_panics endian stream more p h =
    let c = parse_frame_panics endian stream p h in
    ground (
      arith,
      frame_len-lt endian stream,
      c.0,
      byte_at-append_zero stream more c.0,
      length-append stream more,
    )

pub parse_frame-ne-stuck : (endian : Endian) (stream : Bytes) → parse_frame endian stream ≢ stuck
unfolding parse_frame
parse_frame-ne-stuck endian stream h = ground (arith, frame_len-lt endian stream)

pub parse_frame_cases :
    (endian : Endian) (stream : Bytes)
    → (parse_frame endian stream ≡ returns none)
      ⊎ ((frame : Bytes) × (pos : ℕ) × (parse_frame endian stream ≡ returns (some (frame, pos))))
      ⊎ ((p : Panic) × (parse_frame endian stream ≡ panics p))
parse_frame_cases endian stream = split (parse_frame endian stream) refl
  where
    split :
        (r : Outcome (Option (Bytes × ℕ)))
        → parse_frame endian stream ≡ r
        → (parse_frame endian stream ≡ returns none)
          ⊎ ((frame : Bytes) × (pos : ℕ) × (parse_frame endian stream
                ≡ returns (some (frame, pos))))
          ⊎ ((p : Panic) × (parse_frame endian stream ≡ panics p))
    split (returns none) e = inl e
    split (returns (some (frame, pos))) e = inr (inl (frame, pos, e))
    split (panics p) e = inr (inr (p, e))
    split stuck e = absurd (parse_frame-ne-stuck endian stream e)
