-- ===== src/Server/Session/Steps.antt =====
-- How the calls of the session leave a stream of src/server.rs: with nothing queued for sending.
use grpc_rust.Prelude.{
  ℕ, ◌≡◌, ◌∙◌, refl, ap, sym, subst, Bool, true, false, Option, none, some, List, Bool-cases, inl,
  inr,
}
use grpc_rust.Outcome.{returns, bind-eq-returns, returns-injective}
use grpc_rust.Grpc.Word.{Endian}
use grpc_rust.Method.{ServerServiceDefinition}
use grpc_rust.Solicit.{Solicit}
use grpc_rust.Server.Stream.{GrpcStream, create, with_id, set_headers, new_data_chunk, set_state}
use grpc_rust.Server.Headers.{set_headers-eq}
use grpc_rust.Server.Lifecycle.{new_data_chunk-Processed}
use grpc_rust.Server.Session.{
  Incoming, headers_in, data_in, reset_in, other_in, Transitions, still_open, ended, handed,
}

module _ {http : Solicit} where
  abbrev pub NoData : Option (GrpcStream http) → Type 0
  NoData none = Unit
  NoData (some s) = s.cursor ≡ none

  pub still_open_idem : (o : Option (GrpcStream http)) → still_open (still_open o) ≡ still_open o
  still_open_idem none = refl
  still_open_idem (some s) = elim (Bool-cases (http.is_closed s.state)) [
    | inl e ↦ rw e refl
    | inr e ↦ rw e (rw e refl)
  ]

  pub still_open-NoData : (o : Option (GrpcStream http)) → NoData o → NoData (still_open o)
  still_open-NoData none h = tt
  still_open-NoData (some s) h = elim (Bool-cases (http.is_closed s.state)) [
    | inl e ↦ rw e tt
    | inr e ↦ rw e h
  ]

  set_headers-cursor :
      (hs : List http.Header) (s s' : GrpcStream http)
      → set_headers hs s ≡ returns s'
      → s'.cursor ≡ s.cursor
  set_headers-cursor hs s s' h =
      ap (λ (t : GrpcStream http). t.cursor) (sym (set_headers-eq http hs s s' h).1)

  module _ (tr : Transitions http) (endian : Endian) (service : ServerServiceDefinition)
      (id : ℕ) where
    ended-NoData :
        (end : Bool) (s : GrpcStream http)
        → s.cursor ≡ none
        → NoData (ended tr endian service id end s)
    unfolding set_state
    ended-NoData true s h = h
    ended-NoData false s h = h

    pub handed-NoData :
        (f : Incoming http) (o o' : Option (GrpcStream http))
        → handed tr endian service id f o ≡ returns o'
        → NoData o
        → NoData o'
    unfolding handed
    handed-NoData (headers_in n hs end) none o' h quiet =
        let (s, e, e') =
          bind-eq-returns (set_headers hs (create http service id))
            (λ s. returns (ended tr endian service id end s)) h in
        subst NoData (returns-injective e') (
          ended-NoData end s
            (set_headers-cursor hs (create http service id) s e ∙ unfold create with_id in refl))
    handed-NoData (headers_in n hs end) (some s) o' h quiet =
        let (s', e, e') =
          bind-eq-returns (set_headers hs s) (λ s'. returns (ended tr endian service id end s'))
            h in
        subst NoData (returns-injective e')
          (ended-NoData end s' (set_headers-cursor hs s s' e ∙ quiet))
    handed-NoData (data_in n chunk end) none o' h quiet = subst NoData (returns-injective h) tt
    handed-NoData (data_in n chunk end) (some s) o' h quiet =
        let (s', e, e') =
          bind-eq-returns (new_data_chunk endian chunk s)
            (λ s'. returns (ended tr endian service id end s')) h in
        subst NoData (returns-injective e')
          (ended-NoData end s' ((new_data_chunk-Processed endian chunk s s' e).cursor_kept ∙ quiet))
    handed-NoData (reset_in n) none o' h quiet = subst NoData (returns-injective h) tt
    handed-NoData (reset_in n) (some s) o' h quiet =
        subst NoData (returns-injective h) (unfold set_state in quiet)
    handed-NoData other_in o o' h quiet = subst NoData (returns-injective h) quiet
