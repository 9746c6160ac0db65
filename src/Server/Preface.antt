-- ===== src/Server/Preface.antt =====
-- Which clients `GrpcServerConnection::new` (src/server.rs) accepts.
use mathlib.Core.Logic.{◌↔◌}
use grpc_rust.Prelude.{
  some, ◌≡◌, ◌∙◌, refl, ap, sym, inl, inr, Bool-cases, ◌++◌, Bytes, length, take, bytes_eq,
  bytes_eq→eq, ltb, arith, take-append-drop, ge→ltb,
}
use grpc_rust.Outcome.{
  returns, returns-injective, unwrap_err, expect, expect-eq-returns, then-eq-returns,
}
use grpc_rust.Method.{ServerServiceDefinition}
use grpc_rust.Solicit.{Solicit}
use grpc_rust.Server.Connection.{ServerHttp, GrpcServerConnection, preface, connect}

module _ {http : Solicit} (api : ServerHttp http) (service : ServerServiceDefinition) where
  abbrev pub fresh : api.Conn → GrpcServerConnection api
  fresh conn = record { conn = conn; factory = service; state = api.new_sessions }

  accepted-preface :
      (conn : api.Conn) (stream rest : Bytes)
      → connect api stream service ≡ returns (fresh conn, rest)
      → (stream ≡ preface ++ rest) × (api.new_conn stream ≡ some conn)
  unfolding connect
  accepted-preface conn stream rest h = elim (Bool-cases (ltb (length stream) 24)) [
    | inl e ↦ (let h' = rw e at h in cc)
    | inr e ↦ elim (Bool-cases (bytes_eq (take 24 stream) preface)) [
      | inl e' ↦
          then-eq-returns (expect (api.new_conn stream) unwrap_err) _ (rw (e, e') at h)
            λ made split done.
              let both = returns-injective done in
              (
                sym (take-append-drop 24 stream)
                    ∙ (λ i. bytes_eq→eq (take 24 stream) preface e' i ++ (both i).1),
                expect-eq-returns _ _ split ∙ (λ i. some (both i).0.conn),
              )
      | inr e' ↦ (let h' = rw (e, e') at h in cc)
    ]
  ]

  -- A new connection is made on `conn`, and `rest` is left in the socket, exactly when the client sends
  -- the HTTP/2 preface and then `rest`, and its socket gives `conn`.
  pub connect_accepts :
      (conn : api.Conn) (stream rest : Bytes)
      → (connect api stream service ≡ returns (fresh conn, rest))
        ↔ ((stream ≡ preface ++ rest) × (api.new_conn stream ≡ some conn))
  unfolding connect
  connect_accepts conn stream rest = (
    accepted-preface conn stream rest,
    λ (e, made).
        rw (e, ge→ltb (length (preface ++ rest)) 24 (omega arith), ap api.new_conn (sym e) ∙ made)
          (unfold bytes_eq in refl),
  )
