-- ===== src/Server/Replies.antt =====
-- What a stream answers (src/server.rs): the replies to a sequence of messages.
use grpc_rust.Prelude.{
  suc, ◌+◌, ◌<◌, ◌^◌, ◌≡◌, ◌∙◌, ap, sym, fun_ext, none, some, List, [], ◌∷◌, ◌++◌, map, Bytes, All,
  length, drop, concat, append_assoc, append-nil, drop-append_le, drop-length, arith,
}
use grpc_rust.Outcome.{Outcome, returns, ◌>>=◌, bind_assoc}
use grpc_rust.Grpc.{parse_frame}
use grpc_rust.Grpc.Word.{Endian}
use grpc_rust.Grpc.RoundTrip.{wire, write_frame_lem, parse_frame-write_frame}
use grpc_rust.Method.{ServerServiceDefinition, handle_method}
use grpc_rust.Solicit.{Solicit}
use grpc_rust.Server.Stream.{GrpcStream, replied, new_data_chunk, process_buf}
use grpc_rust.Server.Process.{process_buf-none, process_buf-some}
use grpc_rust.Server.Chunks.{feed, feed-concat}

abbrev pub wires : List Bytes → Bytes
wires messages = concat (map wire messages)

-- The length field holds the message's length.
abbrev pub Fits : Bytes → Type 0
Fits message = length message < 2 ^ 32

-- The specification: the handler's answers to the messages, framed, in the order of the messages.
-- The first panic ends it.
unfoldable pub replies : ServerServiceDefinition → Bytes → List Bytes → Outcome Bytes
replies service path [] = returns []
replies service path (m ∷ ms) = do
  r ← handle_method service path m
  rest ← replies service path ms
  returns (wire r ++ rest)

pub replies-one :
    (service : ServerServiceDefinition) (path m r : Bytes)
    → handle_method service path m ≡ returns r
    → replies service path (m ∷ []) ≡ returns (wire r)
unfolding replies
replies-one service path m r e = rw e (ap returns (append-nil (wire r)))

abbrev pub answered : {http : Solicit} → GrpcStream http → Bytes → Bytes → GrpcStream http
answered self tail out = record self { req_buf = tail; resp_buf = self.resp_buf ++ out }

parse_wire :
    (endian : Endian) (m rest : Bytes)
    → Fits m
    → parse_frame endian (wire m ++ rest) ≡ returns (some (m, length m + 5))
parse_wire endian m rest h =
    rw (write_frame_lem endian [] m) at (parse_frame-write_frame endian m rest h)

drop-wire : (m rest : Bytes) → drop (length m + 5) (wire m ++ rest) ≡ rest
drop-wire m rest =
    let e : length m + 5 ≡ suc (suc (suc (suc (suc (length m))))) = omega arith in
    rw e (
      drop-append_le (length m) m rest (omega arith)
      ∙ ap (λ (t : Bytes). t ++ rest) (drop-length m))

module _ {http : Solicit} (endian : Endian) where
  -- The stream with one more reply written.
  answering : GrpcStream http → Bytes → GrpcStream http
  answering self r = record self { resp_buf = self.resp_buf ++ wire r }

  replied-wire :
      (self : GrpcStream http) (m body r : Bytes)
      → replied endian (record self { req_buf = wire m ++ body }) (length m + 5) r
        ≡ record (answering self r) { req_buf = body }
  unfolding answering
  replied-wire self m body r = λ i. record self {
    req_buf = drop-wire m body i;
    resp_buf = write_frame_lem endian self.resp_buf r i;
  }

  -- One round of the loop on a buffer that begins with a written frame.
  process_buf-wire :
      (self : GrpcStream http) (m body : Bytes)
      → Fits m
      → process_buf endian (record self { req_buf = wire m ++ body }) ≡ (
          handle_method self.service_definition self.path m >>= λ r.
          process_buf endian (record (answering self r) { req_buf = body }))
  process_buf-wire self m body fit =
      process_buf-some endian (record self { req_buf = wire m ++ body }) m (length m + 5)
        (parse_wire endian m body fit)
      ∙ ap (λ k. handle_method self.service_definition self.path m >>= k)
          (fun_ext λ r. ap (process_buf endian) (replied-wire self m body r))

  -- On a buffer of whole frames and an incomplete rest the loop writes the specified replies behind
  -- what was there, and leaves the rest.
  pub process_buf-wires :
      (ms : List Bytes) (tail : Bytes) (self : GrpcStream http)
      → All Fits ms
      → parse_frame endian tail ≡ returns none
      → process_buf endian (record self { req_buf = wires ms ++ tail })
        ≡ (replies self.service_definition self.path ms >>= λ out. returns (answered self tail out))
  unfolding replies answering
  process_buf-wires [] tail self fits incomplete =
      process_buf-none endian (record self { req_buf = tail }) incomplete
      ∙ (λ i. returns (record self { req_buf = tail; resp_buf = sym (append-nil self.resp_buf) i }))
  process_buf-wires (m ∷ ms) tail self (fit, fits) incomplete =
      ap (λ (t : Bytes). process_buf endian (record self { req_buf = t }))
        (append_assoc (wire m) (wires ms) tail)
      ∙ process_buf-wire self m (wires ms ++ tail) fit
      ∙ ap (λ k. handle_method self.service_definition self.path m >>= k)
          (fun_ext λ r.
            process_buf-wires ms tail (answering self r) fits incomplete
            ∙ simp (bind_assoc, append_assoc))
      ∙ sym (bind_assoc (handle_method self.service_definition self.path m) _ _)

  -- However the body is cut into DATA frames: a stream that has read no incomplete frame before, fed
  -- a body of whole messages and an incomplete rest, appends the replies to the messages to its
  -- response buffer, in order, and keeps the rest for later; if a handler panics, so does it.
  pub feed-replies :
      (chunk : Bytes) (chunks ms : List Bytes) (tail : Bytes) (self : GrpcStream http)
      → self.req_buf ≡ []
      → concat (chunk ∷ chunks) ≡ wires ms ++ tail
      → All Fits ms
      → parse_frame endian tail ≡ returns none
      → feed endian (chunk ∷ chunks) self
        ≡ (replies self.service_definition self.path ms >>= λ out. returns (answered self tail out))
  unfolding new_data_chunk
  feed-replies chunk chunks ms tail self idle body fits incomplete =
      feed-concat endian chunk chunks self
      ∙ ap (λ (t : Bytes). process_buf endian (record self { req_buf = t }))
          (ap (λ (t : Bytes). t ++ concat (chunk ∷ chunks)) idle ∙ body)
      ∙ process_buf-wires ms tail self fits incomplete
