-- ===== src/Client/Returned.antt =====
-- What `request` and `get_response` of src/client.rs have done when they return.
use grpc_rust.Prelude.{
  ℕ, zero, suc, ◌≡◌, subst, ◌∙◌, refl, ap, true, Option, none, some, [], Bytes, ascii, Bool-cases,
  Option-cases, some-injective, none-ne-some, inl, inr,
}
use grpc_rust.Outcome.{
  Outcome, returns, expect, returns-injective, then-eq-returns, expect-eq-returns, unwrap_none,
  ◌>>=◌ as bind,
}
use grpc_rust.Solicit.{Solicit, ok, then-eq-ok, returned, returned_ok, failed-ne-ok}
use grpc_rust.Client.Call.{
  ClientHttp, GrpcClient, Response, send_all, request, handle_next_frame, finished, wait,
  get_response,
}
use grpc_rust.Client.Wait.{Arrives}
use grpc_rust.Client.Unary.{Sends, Goes, Answers}

module _ {http : Solicit} (api : ClientHttp http) where
  open api use {Conn}

  send_all_sound :
      (fuel : ℕ) (c c' : Conn) → send_all api fuel c ≡ returns (ok c') → (n : ℕ) × Sends api n c c'
  unfolding send_all
  send_all_sound zero c c' h = cc
  send_all_sound (suc fuel) c c' h = then-eq-ok (returns (api.send_next_data c)) _ h λ result e k.
      elim (Bool-cases result.0) [
        | inl more ↦
            let (n, sent) = send_all_sound fuel result.1 c' (rw more at k) in
            (suc n, (result.1, returned e ∙ ap (λ b. ok (b, result.1)) more, sent))
        | inr done ↦ (0, returned e ∙ cc (done, returned_ok (rw done at k)))
      ]

  -- A request that has gone out as this stream.
  abbrev pub Went : GrpcClient api → Bytes → Bytes → ℕ × GrpcClient api → Type 0
  Went self path body (id, self') =
      (n : ℕ) × Goes api self path body n id self'.conn
      × (self' ≡ record self { conn = self'.conn })

  pub request_sound :
      (fuel : ℕ) (self : GrpcClient api) (path body : Bytes) (done : ℕ × GrpcClient api)
      → request api fuel self (ascii "POST") path [] (some body) ≡ returns (ok done)
      → Went self path body done
  unfolding request
  request_sound fuel self path body done h =
      then-eq-ok (returns (api.start_request self.conn _ _)) _ h λ first started h1.
        let id = first.0 in
        let c = first.1 in
        then-eq-ok (bind (expect (api.get_stream c id) unwrap_none) (λ s. returns (ok s))) _ h1
          λ s e h2. then-eq-returns (expect (api.get_stream c id) unwrap_none) _ e λ known found _.
            then-eq-ok (send_all api fuel (api.set_stream_id c id)) _ h2 λ c' e' h3.
              let (n, sent) = send_all_sound fuel (api.set_stream_id c id) c' e' in
              subst (Went self path body) (returned_ok h3) (
                n,
                record {
                  started_conn = c;
                  known = known;
                  started = returned started;
                  is_known = expect-eq-returns _ _ found;
                  sent = sent;
                },
                refl,
              )

  -- The stream holds this response, and it is complete.
  record Complete (id : ℕ) (response : Response http) (c : Conn) : Type 0 where
    stream : api.Stream
    found : api.get_stream c id ≡ some stream
    closed : api.is_closed stream ≡ true
    headers_there : api.stream_headers stream ≡ some response.headers
    body_there : api.stream_body stream ≡ response.body

  finished_sound :
      (id : ℕ) (c : Conn) (o : Option api.Stream) (r : Outcome (Response http))
      (response : Response http)
      → api.get_stream c id ≡ o
      → finished api o id ≡ some r
      → r ≡ returns response
      → Complete id response c
  unfolding finished
  finished_sound id c none r response e h h' = cc
  finished_sound id c (some stream) r response e h h' = elim (Bool-cases (api.is_closed stream)) [
    | inl closed ↦
        then-eq-returns (expect (api.stream_headers stream) unwrap_none) _
          (some-injective (rw closed at h) ∙ h')
          λ headers there made.
            subst (λ x. Complete id x c) (returns-injective made)
              (record {
                stream = stream;
                found = e;
                closed = closed;
                headers_there = expect-eq-returns _ _ there;
                body_there = refl;
              })
    | inr unclosed ↦ absurd (none-ne-some (rw unclosed at h))
  ]

  abbrev Answered : ℕ → GrpcClient api → Response http × GrpcClient api → Type 0
  Answered id self (response, self') =
      (n : ℕ) × Arrives api id n self.conn self'.conn
      × Complete id response self'.conn
      × (self' ≡ record self { conn = self'.conn })

  wait_sound :
      (fuel id : ℕ) (self : GrpcClient api) (done : Response http × GrpcClient api)
      → wait api fuel self id ≡ returns (ok done)
      → Answered id self done
  unfolding wait
  wait_sound zero id self done h = cc
  wait_sound (suc fuel) id self done h =
      elim (Option-cases (finished api (api.get_stream self.conn id) id)) [
        | inr (r, there) ↦
            then-eq-returns r (λ response. returns (ok (response, self))) (rw (there, wait) at h)
              λ response e made.
                subst (Answered id self) (returned_ok made)
                  (0, refl, finished_sound id self.conn _ r response refl there e, refl)
        | inl pending ↦
            then-eq-ok (handle_next_frame api self) _ (rw (pending, wait) at h) λ self' read more.
              then-eq-ok (returns (api.read_frame self.conn)) _ read λ c e made.
                let (n, arrives, complete, there) =
                  wait_sound fuel id (record self { conn = c }) done
                    (ap (λ s. wait api fuel s id) (returned_ok made) ∙ more) in
                (suc n, (c, pending, returned e, arrives), complete, there)
      ]

  abbrev pub Responded : ℕ → GrpcClient api → Response http × GrpcClient api → Type 0
  Responded id self (response, self') =
      (n : ℕ) × Answers api id response.body n self.conn self'.conn
      × (self' ≡ record self { conn = self'.conn })

  pub get_response_sound :
      (fuel id : ℕ) (self : GrpcClient api) (done : Response http × GrpcClient api)
      → get_response api fuel self id ≡ returns (ok done)
      → Responded id self done
  unfolding get_response
  get_response_sound fuel id self done h = elim (Option-cases (api.get_stream self.conn id)) [
    | inl unknown ↦ absurd (failed-ne-ok (rw (unknown, get_response) at h))
    | inr (s, known) ↦
        let (n, arrives, complete, there) =
          wait_sound fuel id self done (rw (known, get_response) at h) in
        (
          n,
          record {
            known = s;
            stream = complete.stream;
            headers = done.0.headers;
            is_known = known;
            arrives = arrives;
            found = complete.found;
            closed = complete.closed;
            headers_there = complete.headers_there;
            body_there = complete.body_there;
          },
          there,
        )
  ]
