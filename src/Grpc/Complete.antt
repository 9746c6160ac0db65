-- ===== src/Grpc/Complete.antt =====
-- What `parse_frame_completely` of src/grpc.rs accepts.
use mathlib.Core.Logic.{◌↔◌}
use grpc_rust.Prelude.{
  ◌^◌, ◌<◌, ◌≡◌, ◌∙◌, refl, ap, some, inl, inr, ◌++◌, Bytes, length, All, IsByte, arith, append-nil,
  drop-length, lt→ltb,
}
use grpc_rust.Outcome.{returns}
use grpc_rust.Grpc.{parse_frame, parse_frame_completely, complete}
use grpc_rust.Grpc.Word.{Endian}
use grpc_rust.Grpc.Parse.{parse_frame_cases}
use grpc_rust.Grpc.RoundTrip.{wire, parse_frame_sound, parse_frame_completely-wire}

complete-some :
    (endian : Endian) (stream frame : Bytes)
    → parse_frame_completely endian stream ≡ returns (some frame)
    → parse_frame endian stream ≡ returns (some (frame, length stream))
unfolding parse_frame_completely complete
complete-some endian stream frame h = elim (parse_frame_cases endian stream) [
  | inl e ↦ (let h' = rw e at h in cc)
  | inr (inl (f, pos, e)) ↦ (let h' = rw e at h in ground arith)
  | inr (inr (p, e)) ↦ (let h' = rw e at h in cc)
]

-- A string of bytes is read as one complete frame exactly when it is the wire format of that frame,
-- which is shorter than 2 ^ 32 bytes; so a body with several messages is not.
pub parse_frame_completely_exact :
    (endian : Endian) (stream frame : Bytes)
    → All IsByte stream
    → (parse_frame_completely endian stream ≡ returns (some frame))
      ↔ ((stream ≡ wire frame) × (length frame < 2 ^ 32))
parse_frame_completely_exact endian stream frame bytes = (
  λ h.
      let (s, fits, _) =
        parse_frame_sound endian stream frame (length stream) bytes
          (complete-some endian stream frame h) in
      (
        s ∙ ap (λ (t : Bytes). wire frame ++ t) (drop-length stream) ∙ append-nil (wire frame),
        fits,
      ),
  λ (s, fits). rw s (rw (parse_frame_completely-wire endian frame, lt→ltb _ _ fits) refl),
)
