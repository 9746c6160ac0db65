-- ===== src/Server/Resend.antt =====
-- The response buffers of src/server.rs over several rounds of the connection's loop.
use grpc_rust.Prelude.{
  ℕ, zero, suc, ◌<◌, ◌≡◌, ◌∙◌, refl, ap, sym, List, [], ◌++◌, append_assoc, append-nil,
}
use grpc_rust.Outcome.{returns}
use grpc_rust.Method.{ServerServiceDefinition}
use grpc_rust.Solicit.{Solicit, ok}
use grpc_rust.Server.Connection.{
  nothing, ServerHttp, GrpcServerConnection, due, handle_requests, reap_streams, run,
}
use grpc_rust.Server.Responses.{
  Frame, Delivers, answers, all_frames-due, run-suc, push_all, log-push_all, view-push_all,
  handle_next-push_all,
}

abbrev pub repeated {ℓ} : {A : Type ℓ} → ℕ → List A → List A
repeated zero xs = []
repeated (suc n) xs = xs ++ repeated n xs

module _ {http : Solicit} (api : ServerHttp http) (d : Delivers api) where
  open d use {log}

  -- The next frames that the connection reads, as many as `idle_frames` says, concern no stream (a
  -- PING, a SETTINGS); sending changes nothing of that. The session has nothing of its own to send, and
  -- it regards no stream as closed.
  pub record IsIdle (service : ServerServiceDefinition) (state : api.Sessions) : Type 0 where
    pub idle_frames : api.Conn → ℕ
    pub received : api.Conn → api.Conn
    pub idle_push : (c : api.Conn) (f : Frame http) → idle_frames (d.push c f) ≡ idle_frames c
    pub idle_received :
        (c : api.Conn) (n : ℕ) → idle_frames c ≡ suc n → idle_frames (received c) ≡ n
    pub log_received : (c : api.Conn) → log (received c) ≡ log c
    pub arrives :
        (c : api.Conn) (n : ℕ)
        → idle_frames c ≡ suc n
        → api.read_frame service c state ≡ returns (ok (received c, state))
    pub quiet : (c : api.Conn) → api.send_next_data c state ≡ ok (nothing, c, state)
    pub kept : reap_streams api state ≡ state

  abbrev connection : api.Conn → ServerServiceDefinition → api.Sessions → GrpcServerConnection api
  connection c service state = record { conn = c; factory = service; state = state }

  -- When the next `rounds` frames on a connection that delivers concern no stream, and the session has
  -- no data of its own to send and no closed stream, the loop goes through them without an error, and
  -- every round sends the responses of all streams with a nonempty response buffer once more; the
  -- session stays as it is.
  pub run_resends :
      (rounds fuel : ℕ) (c : api.Conn) (service : ServerServiceDefinition) (state : api.Sessions)
      → 0 < fuel
      → (idle : IsIdle service state) → idle.idle_frames c ≡ rounds
      → (c' : api.Conn) × (run api rounds fuel (connection c service state)
          ≡ returns (ok (connection c' service state)))
        × (log c' ≡ log c ++ repeated rounds (answers api (api.iter state)))
  unfolding handle_requests
  run_resends zero fuel c service state f idle n = (c, unfold run in refl, sym (append-nil (log c)))
  run_resends (suc rounds) fuel c service state f idle n =
      let responses = due api (api.iter state) in
      let frames = answers api (api.iter state) in
      let c1 = push_all api d (idle.received c) responses in
      let first =
        handle_next-push_all api d fuel (connection c service state) (idle.received c) state f
          (idle.arrives c rounds n) idle.quiet
        ∙ (λ i. returns (ok (connection c1 service (idle.kept i)))) in
      let (c', e', l') = run_resends rounds fuel c1 service state f idle (
        view-push_all api d idle.idle_frames idle.idle_push (idle.received c) responses
        ∙ idle.idle_received c rounds n) in
      let sent : log c1 ≡ log c ++ frames =
        log-push_all api d (idle.received c) responses
        ∙ (λ i. idle.log_received c i ++ all_frames-due api (api.iter state) i) in
      (
        c',
        run-suc api rounds fuel (connection c service state) (connection c1 service state) first
            ∙ e',
        l'
            ∙ ap (λ (t : List (Frame http)). t ++ repeated rounds frames) sent
            ∙ append_assoc (log c) frames (repeated rounds frames),
      )
