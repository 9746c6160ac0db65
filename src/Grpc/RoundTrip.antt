-- ===== src/Grpc/RoundTrip.antt =====
-- `write_frame` and `parse_frame` of src/grpc.rs against each other.
use grpc_rust.Prelude.{
  ℕ, suc, ◌+◌, ◌^◌, ◌/◌, ◌%◌, ◌≤◌, ◌<◌, ◌≡◌, refl, ap, ◌∙◌, sym, inl, inr, none, some, [], ◌∷◌,
  ◌++◌, Bytes, length, take, drop, arith, length-append, length-take, take-append_le, ltb, All,
  IsByte, append_assoc, append-nil, if◌then◌else◌, take-length, take-append-drop,
}
use grpc_rust.Outcome.{returns}
use grpc_rust.Grpc.{frame_len, parse_frame, parse_frame_completely, write_frame}
use grpc_rust.Grpc.Word.{Endian, be_u32, be_bytes, to_be-load_u32, store_u32-to_be, be_u32-be_bytes}
use grpc_rust.Grpc.Parse.{
  Parsed, parse_frame-Parsed, Parsed-parse_frame, parse_frame_cases, parse_frame-append,
  parse_frame-append_panics, parse_frame_bounds,
}

-- The gRPC wire format of an uncompressed message, described without a machine: the flag, the
-- length in network byte order, the message. The length field has 32 bits.
abbrev pub wire : Bytes → Bytes
wire frame = 0 ∷ be_bytes (length frame % 2 ^ 32) ++ frame

-- On either byte order `write_frame` keeps the stream and appends the wire format of the frame.
pub write_frame_lem :
    (endian : Endian) (stream frame : Bytes)
    → write_frame endian stream frame ≡ stream ++ wire frame
unfolding write_frame
write_frame_lem endian stream frame =
    rw (store_u32-to_be endian (length frame % 2 ^ 32) (omega arith)) (simp append_assoc)

frame_len-wire :
    (endian : Endian) (frame rest : Bytes)
    → frame_len endian (wire frame ++ rest) ≡ length frame % 2 ^ 32
unfolding frame_len
frame_len-wire endian frame rest =
    let n = length frame % 2 ^ 32 in
    to_be-load_u32 endian (n / 2 ^ 24) (n / 2 ^ 16 % 256) (n / 2 ^ 8 % 256) (n % 256) (omega arith)
      (omega arith) (omega arith) (omega arith)
    ∙ be_u32-be_bytes n

-- What the parser makes of a written frame: as many bytes of it as its length field says.
pub parse_frame-wire :
    (endian : Endian) (frame rest : Bytes)
    → parse_frame endian (wire frame ++ rest)
      ≡ returns (some (take (length frame % 2 ^ 32) frame, length frame % 2 ^ 32 + 5))
parse_frame-wire endian frame rest =
    let l = frame_len-wire endian frame rest in
    Parsed-parse_frame (record {
      has_header = omega arith;
      flag = refl;
      pos_eq = omega (arith, l);
      within = omega (arith, length-append frame rest);
      frame_eq = rw (l, take-append_le (length frame % 2 ^ 32) frame rest (omega arith));
    })

take_all : (n : ℕ) (xs : Bytes) → n ≡ length xs → take n xs ≡ xs
take_all n xs e = rw e (take-length xs)

-- A frame shorter than 2 ^ 32 bytes that is written to a stream is read back, with the number of
-- bytes that it takes, whatever follows it.
pub parse_frame-write_frame :
    (endian : Endian) (frame rest : Bytes)
    → length frame < 2 ^ 32
    → parse_frame endian (write_frame endian [] frame ++ rest)
      ≡ returns (some (frame, length frame + 5))
parse_frame-write_frame endian frame rest h =
    let e : length frame % 2 ^ 32 ≡ length frame = omega arith in
    rw (write_frame_lem endian [] frame)
      (parse_frame-wire endian frame rest ∙ cc (e, take_all (length frame % 2 ^ 32) frame e))

pub parse_frame_completely-wire :
    (endian : Endian) (frame : Bytes)
    → parse_frame_completely endian (wire frame)
      ≡ returns (if ltb (length frame) (2 ^ 32) then some frame else none)
unfolding parse_frame_completely
parse_frame_completely-wire endian frame =
    rw (← append-nil (wire frame), parse_frame-wire endian frame [])
      (ground (arith, append-nil frame, take_all (length frame % 2 ^ 32) frame))

-- A frame is written behind what the stream holds, in the wire format: a zero, its length modulo
-- 2 ^ 32 in network byte order, and its bytes, on either byte order of the machine. Written alone, it is read back
-- completely exactly when it is shorter than 2 ^ 32 bytes, and a longer one is read as no complete
-- frame.
pub parse_frame_completely-write_frame :
    (endian : Endian) (stream frame : Bytes)
    → (write_frame endian stream frame ≡ stream ++ wire frame)
      × (parse_frame_completely endian (write_frame endian [] frame)
          ≡ returns (if ltb (length frame) (2 ^ 32) then some frame else none))
parse_frame_completely-write_frame endian stream frame = (
  write_frame_lem endian stream frame,
  rw (write_frame_lem endian [] frame) (parse_frame_completely-wire endian frame),
)

be_bytes-be_u32 :
    (a b c d : ℕ)
    → IsByte a
    → IsByte b
    → IsByte c
    → IsByte d
    → be_bytes (be_u32 a b c d) ≡ a ∷ b ∷ c ∷ d ∷ []
be_bytes-be_u32 a b c d ha hb hc hd = ground arith

short :
    (endian : Endian) (stream frame : Bytes) (pos : ℕ)
    → parse_frame endian stream ≡ returns (some (frame, pos))
    → 5 ≤ length stream
short endian stream frame pos h = (parse_frame-Parsed endian stream frame pos h).has_header

sound_header :
    (endian : Endian) (flag a b c d : ℕ) (rest frame : Bytes) (pos : ℕ)
    → All IsByte (flag ∷ a ∷ b ∷ c ∷ d ∷ rest)
    → Parsed endian (flag ∷ a ∷ b ∷ c ∷ d ∷ rest) frame pos
    → (flag ∷ a ∷ b ∷ c ∷ d ∷ rest ≡ wire frame ++ drop pos (flag ∷ a ∷ b ∷ c ∷ d ∷ rest))
      × (length frame < 2 ^ 32)
      × (pos ≡ length (wire frame))
sound_header endian flag a b c d rest frame pos (_, (ha, (hb, (hc, (hd, _))))) p = (
  rw (p.flag, five) (λ i. 0 ∷ sym fields i ++ body i),
  omega (arith, len, n),
  omega (arith, p.pos_eq, len),
)
  where
    n : frame_len endian (flag ∷ a ∷ b ∷ c ∷ d ∷ rest) ≡ be_u32 a b c d
    n = unfold frame_len in to_be-load_u32 endian a b c d ha hb hc hd

    len : length frame ≡ frame_len endian (flag ∷ a ∷ b ∷ c ∷ d ∷ rest)
    len =
        ap length p.frame_eq
        ∙ omega (
          arith,
          length-take (frame_len endian (flag ∷ a ∷ b ∷ c ∷ d ∷ rest)) rest,
          p.within,
          p.pos_eq,
        )

    five : pos ≡ suc (suc (suc (suc (suc (length frame)))))
    five = omega (arith, p.pos_eq, len)

    fields : be_bytes (length frame % 2 ^ 32) ≡ a ∷ b ∷ c ∷ d ∷ []
    fields = ap be_bytes (omega (arith, len, n)) ∙ be_bytes-be_u32 a b c d ha hb hc hd

    own : take (length frame) rest ≡ frame
    own = rw len (sym p.frame_eq)

    body : rest ≡ frame ++ drop (length frame) rest
    body = sym (take-append-drop (length frame) rest) ∙ ap (λ t. t ++ drop (length frame) rest) own

-- On a string of bytes, what `parse_frame` accepts is the wire format of its frame, then the rest.
pub parse_frame_sound :
    (endian : Endian) (stream frame : Bytes) (pos : ℕ)
    → All IsByte stream
    → parse_frame endian stream ≡ returns (some (frame, pos))
    → (stream ≡ wire frame ++ drop pos stream)
      × (length frame < 2 ^ 32)
      × (pos ≡ length (wire frame))
parse_frame_sound endian (flag ∷ a ∷ b ∷ c ∷ d ∷ rest) frame pos bytes h =
    sound_header endian flag a b c d rest frame pos bytes (parse_frame-Parsed endian _ frame pos h)
parse_frame_sound endian (flag ∷ a ∷ b ∷ c ∷ []) frame pos bytes h =
    absurd (omega (arith, short endian _ frame pos h))
parse_frame_sound endian (flag ∷ a ∷ b ∷ []) frame pos bytes h =
    absurd (omega (arith, short endian _ frame pos h))
parse_frame_sound endian (flag ∷ a ∷ []) frame pos bytes h =
    absurd (omega (arith, short endian _ frame pos h))
parse_frame_sound endian (flag ∷ []) frame pos bytes h =
    absurd (omega (arith, short endian _ frame pos h))
parse_frame_sound endian [] frame pos bytes h = absurd (omega (arith, short endian _ frame pos h))

-- Every proper prefix of a written frame that fits is answered with `None`: the parser waits.
pub parse_frame-prefix :
    (endian : Endian) (frame front back : Bytes) (x : ℕ)
    → length frame < 2 ^ 32
    → wire frame ≡ front ++ x ∷ back
    → parse_frame endian front ≡ returns none
parse_frame-prefix endian frame front back x h e = elim (parse_frame_cases endian front) [
  | inl r ↦ r
  | inr (inl (f, pos, r)) ↦ ground (
    arith,
    whole,
    parse_frame-append endian front (x ∷ back) f pos r,
    parse_frame_bounds endian front f pos r,
    length-append front (x ∷ back),
    ap length e,
  )
  | inr (inr (p, r)) ↦ cc (whole, parse_frame-append_panics endian front (x ∷ back) p r)
]
  where
    whole : parse_frame endian (front ++ x ∷ back) ≡ returns (some (frame, length frame + 5))
    whole =
        rw (← e, ← append-nil (wire frame))
          (rw (write_frame_lem endian [] frame) at (parse_frame-write_frame endian frame [] h))
