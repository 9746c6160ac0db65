-- ===== src/Server/Chunks.antt =====
-- The DATA frames of a stream, one `new_data_chunk` (src/server.rs) each, and the ways
-- to cut a body into them.
use grpc_rust.Prelude.{
  ◌≡◌, ◌∙◌, ap, sym, fun_ext, List, [], ◌∷◌, ◌++◌, Bytes, concat, append_assoc, append-nil,
}
use grpc_rust.Outcome.{Outcome, returns, ◌>>=◌, bind-returns}
use grpc_rust.Grpc.Word.{Endian}
use grpc_rust.Solicit.{Solicit}
use grpc_rust.Server.Stream.{GrpcStream, extend, new_data_chunk, process_buf}
use grpc_rust.Server.Process.{process_buf-extend}

-- The session hands the stream the payloads of its DATA frames in order.
unfoldable pub feed :
    {http : Solicit} → Endian → List Bytes → GrpcStream http → Outcome (GrpcStream http)
feed endian [] self = returns self
feed endian (chunk ∷ chunks) self = new_data_chunk endian chunk self >>= feed endian chunks

module _ {http : Solicit} (endian : Endian) where
  -- A chunk of two parts is the one part, then the other.
  pub new_data_chunk-append :
      (a b : Bytes) (self : GrpcStream http)
      → new_data_chunk endian (a ++ b) self
        ≡ (new_data_chunk endian a self >>= new_data_chunk endian b)
  unfolding new_data_chunk
  new_data_chunk-append a b self =
      ap (λ (t : Bytes). process_buf endian (record self { req_buf = t }))
        (sym (append_assoc self.req_buf a b))
      ∙ process_buf-extend endian (extend self a) b

  -- Feeding chunks one by one, at least one of them, is feeding their concatenation at once.
  pub feed-concat :
      (chunk : Bytes) (chunks : List Bytes) (self : GrpcStream http)
      → feed endian (chunk ∷ chunks) self ≡ new_data_chunk endian (concat (chunk ∷ chunks)) self
  unfolding feed
  feed-concat chunk [] self = rw append-nil (bind-returns (new_data_chunk endian chunk self))
  feed-concat chunk (c ∷ chunks) self =
      ap (λ k. new_data_chunk endian chunk self >>= k) (fun_ext λ s. feed-concat c chunks s)
      ∙ sym (new_data_chunk-append chunk (concat (c ∷ chunks)) self)

  -- Two ways to cut one body into DATA frames leave the same stream, or panic in the same way.
  pub feed_chunking :
      (c d : Bytes) (cs ds : List Bytes) (self : GrpcStream http)
      → concat (c ∷ cs) ≡ concat (d ∷ ds)
      → feed endian (c ∷ cs) self ≡ feed endian (d ∷ ds) self
  feed_chunking c d cs ds self h =
      feed-concat c cs self
      ∙ ap (λ (t : Bytes). new_data_chunk endian t self) h
      ∙ sym (feed-concat d ds self)
