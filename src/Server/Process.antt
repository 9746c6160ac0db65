-- ===== src/Server/Process.antt =====
-- The loop of `GrpcStream::process_buf` (src/server.rs): its fuel and its rounds.
use grpc_rust.Prelude.{
  ℕ, zero, suc, ◌<◌, ◌≡◌, ◌≢◌, ◌∙◌, ap, sym, fun_ext, inl, inr, none, some, Bytes, length, arith,
  length-drop, drop-append_le,
}
use grpc_rust.Outcome.{Panic, returns, panics, stuck, ◌>>=◌, bind_assoc, bind-ne-stuck}
use grpc_rust.Grpc.{parse_frame, write_frame}
use grpc_rust.Grpc.Word.{Endian}
use grpc_rust.Grpc.Parse.{
  parse_frame_cases, parse_frame_bounds, parse_frame-append, parse_frame-append_panics,
}
use grpc_rust.Method.{handle_method}
use grpc_rust.Solicit.{Solicit}
use grpc_rust.Server.Stream.{GrpcStream, replied, extend, process_loop, process_buf}

module _ {http : Solicit} (endian : Endian) where
  -- A round drains a part of the buffer.
  drained :
      (self : GrpcStream http) (frame : Bytes) (pos : ℕ) (r : Bytes)
      → parse_frame endian self.req_buf ≡ returns (some (frame, pos))
      → length (replied endian self pos r).req_buf < length self.req_buf
  drained self frame pos r h =
      omega
        (arith, parse_frame_bounds endian self.req_buf frame pos h, length-drop pos self.req_buf)

  -- Any fuel above the length of the buffer gives the same run.
  process_loop-fuel :
      (f g : ℕ) (self : GrpcStream http)
      → length self.req_buf < f
      → length self.req_buf < g
      → process_loop f endian self ≡ process_loop g endian self
  unfolding process_loop
  process_loop-fuel zero g self hf hg = absurd (omega arith)
  process_loop-fuel (suc f) zero self hf hg = absurd (omega arith)
  process_loop-fuel (suc f) (suc g) self hf hg = elim (parse_frame_cases endian self.req_buf) [
    | inl e ↦ rw e
    | inr (inl (frame, pos, e)) ↦ rw e (
        ap (λ k. handle_method self.service_definition self.path frame >>= k)
          (fun_ext λ r.
            let d = drained self frame pos r e in
            process_loop-fuel f g (replied endian self pos r) (omega arith) (omega arith)))
    | inr (inr (p, e)) ↦ rw e
  ]

  process_loop-eq-process_buf :
      (f : ℕ) (self : GrpcStream http)
      → length self.req_buf < f
      → process_loop f endian self ≡ process_buf endian self
  unfolding process_buf
  process_loop-eq-process_buf f self h =
      process_loop-fuel f (suc (length self.req_buf)) self h (omega arith)

  -- The rounds of the loop, without fuel.
  pub process_buf-none :
      (self : GrpcStream http)
      → parse_frame endian self.req_buf ≡ returns none
      → process_buf endian self ≡ returns self
  unfolding process_buf process_loop
  process_buf-none self e = rw e

  pub process_buf-panics :
      (self : GrpcStream http) (p : Panic)
      → parse_frame endian self.req_buf ≡ panics p
      → process_buf endian self ≡ panics p
  unfolding process_buf process_loop
  process_buf-panics self p e = rw e

  pub process_buf-some :
      (self : GrpcStream http) (frame : Bytes) (pos : ℕ)
      → parse_frame endian self.req_buf ≡ returns (some (frame, pos))
      → process_buf endian self ≡ (
          handle_method self.service_definition self.path frame >>= λ r.
          process_buf endian (replied endian self pos r))
  unfolding process_buf process_loop
  process_buf-some self frame pos e = rw e (
      ap (λ k. handle_method self.service_definition self.path frame >>= k)
        (fun_ext λ r.
          process_loop-eq-process_buf (length self.req_buf) (replied endian self pos r)
            (drained self frame pos r e)))

  process_loop-ne-stuck :
      (f : ℕ) (self : GrpcStream http)
      → length self.req_buf < f
      → ((message : Bytes) → handle_method self.service_definition self.path message ≢ stuck)
      → process_loop f endian self ≢ stuck
  unfolding process_loop
  process_loop-ne-stuck zero self h total = absurd (omega arith)
  process_loop-ne-stuck (suc f) self h total = elim (parse_frame_cases endian self.req_buf) [
    | inl e ↦ rw e (λ x. cc)
    | inr (inl (frame, pos, e)) ↦ rw e (
        bind-ne-stuck (handle_method self.service_definition self.path frame) _ (total frame) λ r.
          let d = drained self frame pos r e in
          process_loop-ne-stuck f (replied endian self pos r) (omega arith) total)
    | inr (inr (p, e)) ↦ rw e (λ x. cc)
  ]

  -- The loop ends on every buffer: if the method's handler answers or panics on every message, so
  -- does the loop.
  pub process_buf-ne-stuck :
      (self : GrpcStream http)
      → ((message : Bytes) → handle_method self.service_definition self.path message ≢ stuck)
      → process_buf endian self ≢ stuck
  unfolding process_buf
  process_buf-ne-stuck self total = process_loop-ne-stuck _ self (omega arith) total

  replied-extend :
      (self : GrpcStream http) (more frame : Bytes) (pos : ℕ) (r : Bytes)
      → parse_frame endian self.req_buf ≡ returns (some (frame, pos))
      → replied endian (extend self more) pos r ≡ extend (replied endian self pos r) more
  replied-extend self more frame pos r e =
      ap (λ (b : Bytes). record self { req_buf = b; resp_buf = write_frame endian self.resp_buf r })
        (drop-append_le pos self.req_buf more
          (parse_frame_bounds endian self.req_buf frame pos e).1)

  process_loop-extend :
      (f : ℕ) (self : GrpcStream http) (more : Bytes)
      → length self.req_buf < f
      → process_buf endian (extend self more)
        ≡ (process_loop f endian self >>= λ self'. process_buf endian (extend self' more))
  unfolding process_loop
  process_loop-extend zero self more h = absurd (omega arith)
  process_loop-extend (suc f) self more h = elim (parse_frame_cases endian self.req_buf) [
    | inl e ↦ rw e
    | inr (inl (frame, pos, e)) ↦ rw e (
        process_buf-some (extend self more) frame pos
          (parse_frame-append endian self.req_buf more frame pos e)
        ∙ ap (λ k. handle_method self.service_definition self.path frame >>= k)
            (fun_ext λ r.
              ap (process_buf endian) (replied-extend self more frame pos r e)
              ∙ process_loop-extend f (replied endian self pos r) more
                  (omega (arith, drained self frame pos r e)))
        ∙ sym (bind_assoc (handle_method self.service_definition self.path frame) _ _))
    | inr (inr (p, e)) ↦ rw e (
        process_buf-panics (extend self more) p
          (parse_frame-append_panics endian self.req_buf more p e))
  ]

  -- Bytes that arrive later can be processed later: processing a longer buffer is processing its
  -- front, then what the front left with the rest behind it.
  pub process_buf-extend :
      (self : GrpcStream http) (more : Bytes)
      → process_buf endian (extend self more)
        ≡ (process_buf endian self >>= λ self'. process_buf endian (extend self' more))
  process_buf-extend self more =
      unfold process_buf in process_loop-extend (suc (length self.req_buf)) self more (omega arith)
