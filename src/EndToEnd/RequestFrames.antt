-- ===== src/EndToEnd/RequestFrames.antt =====
-- The frames of a call's request on a stream of src/server.rs, and what they leave of it.
use grpc_rust.Prelude.{
  ℕ, ◌≡◌, ◌∙◌, refl, ap, sym, true, false, Option, none, some, List, [], ◌∷◌, Bytes, Bool-cases,
  inl, inr, none-ne-some,
}
use grpc_rust.Outcome.{returns, bind-eq-returns, returns-injective}
use grpc_rust.Grpc.Word.{Endian}
use grpc_rust.Method.{ServerServiceDefinition}
use grpc_rust.Solicit.{Solicit}
use grpc_rust.Server.Stream.{GrpcStream, create, with_id, set_headers, new_data_chunk, set_state}
use grpc_rust.Server.Lifecycle.{new_data_chunk-Processed}
use grpc_rust.Server.Headers.{set_headers-eq}
use grpc_rust.Server.Chunks.{feed}
use grpc_rust.Server.Session.{Incoming, headers_in, data_in, Transitions, still_open, handed, life}
use grpc_rust.EndToEnd.FreshStream.{served_request}

-- An open stream is not closed, also when the peer has ended its side.
pub record HasStates {http : Solicit} (tr : Transitions http) : Type 0 where
  pub open_open : http.is_closed http.open_state ≡ false
  pub half_open : http.is_closed (tr.close_remote http.open_state) ≡ false

module _ {http : Solicit} where
  -- The frames of a request on a stream: its headers, then its body, of which the last frame ends the
  -- stream.
  abbrev pub body_frames : ℕ → Bytes → List Bytes → List (Incoming http)
  body_frames id chunk [] = data_in id chunk true ∷ []
  body_frames id chunk (c ∷ chunks) = data_in id chunk false ∷ body_frames id c chunks

  abbrev pub request_frames : ℕ → List http.Header → Bytes → List Bytes → List (Incoming http)
  request_frames id headers chunk chunks = headers_in id headers false ∷ body_frames id chunk chunks

  -- The state of a new stream is left alone by its headers and its data.
  served_open :
      (hs : List http.Header) (id : ℕ) (service : ServerServiceDefinition) (s : GrpcStream http)
      → set_headers hs (create http service id) ≡ returns s
      → s.state ≡ http.open_state
  unfolding create with_id
  served_open hs id service s h =
      ap (λ (t : GrpcStream http). t.state)
        (sym (set_headers-eq http hs (create http service id) s h).1)

  module _ {tr : Transitions http} (laws : HasStates tr) (endian : Endian)
      (service : ServerServiceDefinition) (id : ℕ) where
    -- What the request leaves of a stream.
    abbrev half_closed : GrpcStream http → GrpcStream http
    half_closed s = set_state (tr.close_remote s.state) s

    still_open_lem :
        (s : GrpcStream http) → s.state ≡ http.open_state → still_open (some s) ≡ some s
    still_open_lem s h = rw (h, laws.open_open) refl

    half_closed_lem :
        (s : GrpcStream http)
        → s.state ≡ http.open_state
        → still_open (some (half_closed s)) ≡ some (half_closed s)
    unfolding set_state
    half_closed_lem s h = rw (h, laws.half_open) refl

    life-body_frames :
        (chunk : Bytes) (chunks : List Bytes) (s s' : GrpcStream http)
        → s.state ≡ http.open_state
        → feed endian (chunk ∷ chunks) s ≡ returns s'
        → life tr endian service id (body_frames id chunk chunks) (some s)
          ≡ returns (some (half_closed s'))
    unfolding life handed feed
    life-body_frames chunk [] s s' h fed =
        let (s1, e, e') = bind-eq-returns (new_data_chunk endian chunk s) (feed endian []) fed in
        let p = new_data_chunk-Processed endian chunk s s1 e in
        rw e (
          ap returns (half_closed_lem s1 (p.state_kept ∙ h))
          ∙ ap (λ t. returns (some (half_closed t))) (returns-injective e'))
    life-body_frames chunk (c ∷ chunks) s s' h fed =
        let (s1, e, e') =
          bind-eq-returns (new_data_chunk endian chunk s) (feed endian (c ∷ chunks)) fed in
        let p = new_data_chunk-Processed endian chunk s s1 e in
        let kept = p.state_kept ∙ h in
        rw e (
          ap (life tr endian service id (body_frames id c chunks)) (still_open_lem s1 kept)
          ∙ life-body_frames c chunks s1 s' kept e')

    -- A stream that is alone with the frames of a request is the new stream with its headers and its
    -- body.
    pub life-request_frames :
        (hs : List http.Header) (chunk : Bytes) (chunks : List Bytes) (s' : GrpcStream http)
        → served_request endian service id hs (chunk ∷ chunks) ≡ returns s'
        → life tr endian service id (request_frames id hs chunk chunks) none
          ≡ returns (some (half_closed s'))
    unfolding life handed
    life-request_frames hs chunk chunks s' h =
        let (s, e, fed) =
          bind-eq-returns (set_headers hs (create http service id)) (feed endian (chunk ∷ chunks))
            h in
        let fresh = served_open hs id service s e in
        rw e (
          ap (life tr endian service id (body_frames id chunk chunks)) (still_open_lem s fresh)
          ∙ life-body_frames chunk chunks s s' fresh fed)

  pub still_open-some :
      (o : Option (GrpcStream http)) (s : GrpcStream http) → still_open o ≡ some s → o ≡ some s
  still_open-some none s h = h
  still_open-some (some t) s h = elim (Bool-cases (http.is_closed t.state)) [
    | inl e ↦ absurd (none-ne-some (rw e at h))
    | inr e ↦ rw e at h
  ]
