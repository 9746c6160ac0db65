-- ===== src/Server/Answered.antt =====
-- What a stream of src/server.rs has answered, after every sequence of the calls that the HTTP/2
-- session makes.
use grpc_rust.Prelude.{
  All-append, All-front, All-back, ℕ, zero, suc, ◌≡◌, ◌∙◌, ap, sym, subst, inl, inr, none, [], ◌∷◌,
  ◌++◌, Bytes, IsByte, All, length, drop, append_assoc, arith,
}
use grpc_rust.Outcome.{returns, bind-eq-returns, returns-injective}
use grpc_rust.Grpc.{parse_frame}
use grpc_rust.Grpc.Word.{Endian}
use grpc_rust.Grpc.Parse.{parse_frame_cases}
use grpc_rust.Grpc.RoundTrip.{wire, write_frame_lem, parse_frame_sound}
use grpc_rust.Method.{ServerServiceDefinition, handle_method}
use grpc_rust.Solicit.{Solicit}
use grpc_rust.Server.Stream.{
  GrpcStream, with_id, extend, replied, process_loop, process_buf, new_data_chunk, set_state,
  get_data_chunk,
}
use grpc_rust.Server.Headers.{set_headers-eq}
use grpc_rust.Server.Lifecycle.{
  headers_set, chunk_received, state_set, chunk_taken, Reach, here, next, Reach-IsServed, loop_none,
  loop_some, loop_panics,
}
use grpc_rust.Server.Exchanges.{messages, all_replies, Exchanged, Exchanged-refl, Exchanged-chunk}

module _ {http : Solicit} (endian : Endian) (service : ServerServiceDefinition) where
  process_loop-Exchanged :
      (f : ℕ) (s s' : GrpcStream http)
      → s.service_definition ≡ service
      → All IsByte s.req_buf
      → process_loop f endian s ≡ returns s'
      → Exchanged service s.req_buf s.resp_buf s'.req_buf s'.resp_buf
  process_loop-Exchanged zero s s' same bytes h = unfold process_loop in cc
  process_loop-Exchanged (suc f) s s' same bytes h = elim (parse_frame_cases endian s.req_buf) [
    | inl e ↦
        subst (λ (t : GrpcStream http). Exchanged service s.req_buf s.resp_buf t.req_buf t.resp_buf)
          (returns-injective (sym (loop_none endian f s e) ∙ h))
          (Exchanged-refl service s.req_buf s.resp_buf)
    | inr (inl (frame, pos, e)) ↦
        let (r, handled, more) =
          bind-eq-returns (handle_method s.service_definition s.path frame)
            (λ r. process_loop f endian (replied endian s pos r))
            (sym (loop_some endian f s frame pos e) ∙ h) in
        let (sound, _, _) = parse_frame_sound endian s.req_buf frame pos bytes e in
        let rest = drop pos s.req_buf in
        let left = All-back IsByte (wire frame) rest (subst (All IsByte) sound bytes) in
        let x = process_loop-Exchanged f (replied endian s pos r) s' same left more in
        record {
          exchanges = record { path = s.path; message = frame; reply = r } ∷ x.exchanges;
          answered =
              (subst (λ d. handle_method d s.path frame ≡ returns r) same handled, x.answered);
          taken =
              sound
              ∙ ap (λ (t : Bytes). wire frame ++ t) x.taken
              ∙ sym (append_assoc (wire frame) (messages x.exchanges) s'.req_buf);
          written =
              x.written
              ∙ ap (λ (t : Bytes). t ++ all_replies x.exchanges)
                  (write_frame_lem endian s.resp_buf r)
              ∙ append_assoc s.resp_buf (wire r) (all_replies x.exchanges);
        }
    | inr (inr (p, e)) ↦ absurd (loop_panics endian f s s' p e h)
  ]

  new_data_chunk-Exchanged :
      (chunk : Bytes) (s s' : GrpcStream http)
      → s.service_definition ≡ service
      → All IsByte (s.req_buf ++ chunk)
      → new_data_chunk endian chunk s ≡ returns s'
      → Exchanged service (s.req_buf ++ chunk) s.resp_buf s'.req_buf s'.resp_buf
  unfolding new_data_chunk process_buf
  new_data_chunk-Exchanged chunk s s' same bytes h =
      process_loop-Exchanged (suc (length (s.req_buf ++ chunk))) (extend s chunk) s' same bytes h

  -- The bytes of the DATA frames, in their order.
  abbrev pub received : {s t : GrpcStream http} → Reach endian s t → Bytes
  received here = []
  received (next r (headers_set headers h)) = received r
  received (next r (chunk_received chunk h)) = received r ++ chunk
  received (next r (state_set state h)) = received r
  received (next r (chunk_taken size h)) = received r

  -- A stream that has taken these bytes: of the exchanges that it made, the messages framed are these
  -- bytes but for the rest in the request buffer, which starts with no complete frame, and the replies
  -- framed are the response buffer.
  pub record Answered (bytes : Bytes) (s : GrpcStream http) : Type 0 where
    pub exchanged : Exchanged service bytes [] s.req_buf s.resp_buf
    pub no_frame_waits : parse_frame endian s.req_buf ≡ returns none

  get_data_chunk_keeps :
      (size : ℕ) (s : GrpcStream http)
      → s.cursor ≡ none
      → ((get_data_chunk size s).1.req_buf ≡ s.req_buf)
        × ((get_data_chunk size s).1.resp_buf ≡ s.resp_buf)
  unfolding get_data_chunk
  get_data_chunk_keeps size s e = rw e (ground arith)

  module _ (id : ℕ) where
    exchanged_lem :
        {s : GrpcStream http} (r : Reach endian (with_id http id service) s)
        → All IsByte (received r)
        → Exchanged service (received r) [] s.req_buf s.resp_buf
    unfolding with_id set_state
    exchanged_lem here bytes = Exchanged-refl service [] []
    exchanged_lem {s} (next {t} r (headers_set headers h)) bytes =
        subst (λ (u : GrpcStream http). Exchanged service (received r) [] u.req_buf u.resp_buf)
          (set_headers-eq http headers t s h).1 (exchanged_lem r bytes)
    exchanged_lem {s} (next {t} r (chunk_received chunk h)) bytes =
        let x = exchanged_lem r (All-front IsByte (received r) chunk bytes) in
        let waiting =
          All-back IsByte (messages x.exchanges) t.req_buf
            (subst (All IsByte) x.taken (All-front IsByte (received r) chunk bytes)) in
        Exchanged-chunk service (received r) chunk [] t.req_buf s.req_buf t.resp_buf s.resp_buf x (
          new_data_chunk-Exchanged chunk t s (Reach-IsServed endian id service r).service_kept
            (All-append IsByte t.req_buf chunk waiting (All-back IsByte (received r) chunk bytes))
            h)
    exchanged_lem {s} (next {t} r (state_set state h)) bytes =
        subst (λ (u : GrpcStream http). Exchanged service (received r) [] u.req_buf u.resp_buf) h
          (exchanged_lem r bytes)
    exchanged_lem {s} (next {t} r (chunk_taken size h)) bytes =
        let (q, p) =
          get_data_chunk_keeps size t (Reach-IsServed endian id service r).nothing_queued in
        subst (λ (u : GrpcStream http). Exchanged service (received r) [] u.req_buf u.resp_buf) h
          (subst (λ b. Exchanged service (received r) [] b (get_data_chunk size t).1.resp_buf)
            (sym q)
            (subst (λ b. Exchanged service (received r) [] t.req_buf b) (sym p)
              (exchanged_lem r bytes)))

    -- After any sequence of the session's calls on a new stream, in which the DATA frames carry bytes:
    -- the bytes received are framed messages and a rest that starts with no complete frame; the service
    -- has replied to each of these messages, under some path; and the response buffer is the
    -- framed replies in the order of the messages, nothing more.
    pub Reach-Answered :
        {s : GrpcStream http} (r : Reach endian (with_id http id service) s)
        → All IsByte (received r)
        → Answered (received r) s
    Reach-Answered r bytes = record {
      exchanged = exchanged_lem r bytes;
      no_frame_waits = (Reach-IsServed endian id service r).no_frame_waits;
    }
