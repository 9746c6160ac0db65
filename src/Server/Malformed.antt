-- ===== src/Server/Malformed.antt =====
-- A stream of src/server.rs whose body has a frame that the parser panics on.
use grpc_rust.Prelude.{
  ◌≡◌, ◌∙◌, refl, ap, sym, fun_ext, List, [], ◌∷◌, ◌++◌, Bytes, All, concat, append-nil,
}
use grpc_rust.Outcome.{Panic, panics, ◌>>=◌, bind_assoc}
use grpc_rust.Grpc.{parse_frame}
use grpc_rust.Grpc.Word.{Endian}
use grpc_rust.Solicit.{Solicit}
use grpc_rust.Server.Stream.{GrpcStream, process_buf, extend, new_data_chunk}
use grpc_rust.Server.Process.{process_buf-extend, process_buf-panics}
use grpc_rust.Server.Chunks.{feed, feed-concat}
use grpc_rust.Server.Replies.{wires, Fits, replies, answered, process_buf-wires}

module _ {http : Solicit} (endian : Endian) where
  -- Whole frames are answered before what stands behind them is read.
  process_buf-wires_then :
      (ms : List Bytes) (tail : Bytes) (self : GrpcStream http)
      → All Fits ms
      → process_buf endian (record self { req_buf = wires ms ++ tail }) ≡ (
          replies self.service_definition self.path ms >>= λ out.
          process_buf endian (answered self tail out))
  process_buf-wires_then ms tail self fits =
      process_buf-extend endian (record self { req_buf = wires ms }) tail
      ∙ ap (λ k. k >>= λ s. process_buf endian (extend s tail))
          (ap (λ (t : Bytes). process_buf endian (record self { req_buf = t }))
              (sym (append-nil (wires ms)))
            ∙ process_buf-wires endian ms [] self fits (unfold parse_frame in refl))
      ∙ bind_assoc (replies self.service_definition self.path ms) _ _

  -- However the body is cut into DATA frames: a stream with an empty request buffer, fed whole
  -- messages and then a frame that the parser panics on, panics like the parser after it has called
  -- the method on each of the messages, or like the first of these calls that panics.
  pub feed-panics :
      (chunk : Bytes) (chunks ms : List Bytes) (tail : Bytes) (p : Panic) (self : GrpcStream http)
      → self.req_buf ≡ []
      → concat (chunk ∷ chunks) ≡ wires ms ++ tail
      → All Fits ms
      → parse_frame endian tail ≡ panics p
      → feed endian (chunk ∷ chunks) self
        ≡ (replies self.service_definition self.path ms >>= λ out. panics p)
  feed-panics chunk chunks ms tail p self idle body fits bad =
      feed-concat endian chunk chunks self
      ∙ unfold new_data_chunk in
        ap (λ (t : Bytes). process_buf endian (record self { req_buf = t }))
          (ap (λ (t : Bytes). t ++ concat (chunk ∷ chunks)) idle ∙ body)
        ∙ process_buf-wires_then ms tail self fits
        ∙ ap (λ k. replies self.service_definition self.path ms >>= k)
            (fun_ext λ out. process_buf-panics endian (answered self tail out) p bad)
