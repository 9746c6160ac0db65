-- ===== src/Method/Dispatch.antt =====
-- A call of a registered method runs its handler between its two marshallers (src/method.rs).
use grpc_rust.Prelude.{◌≡◌, List, ◌∷◌, ◌++◌, Bytes}
use grpc_rust.Outcome.{Panic, returns, panics}
use grpc_rust.Marshall.{Carries}
use grpc_rust.Method.{MethodDescriptor, MethodHandler, ServerMethod, server_method, handle_method}
use grpc_rust.Method.Find.{Absent, find_method_first}

module _ {ℓ κ} {Req : Type ℓ} {Resp : Type κ} (desc : MethodDescriptor Req Resp)
    (handler : MethodHandler Req Resp) (front back : List ServerMethod)
    (first : Absent desc.name front) where
  -- In a service where no earlier method has its name, a method that answers `req` by `resp` turns
  -- the bytes of the one into the bytes of the other.
  pub handle_method-returns :
      (req : Req) (resp : Resp) (req_bytes resp_bytes : Bytes)
      → Carries desc.req_marshaller req req_bytes
      → handler.handle req ≡ returns resp
      → Carries desc.resp_marshaller resp resp_bytes
      → handle_method
          (record { methods = front ++ server_method desc handler ∷ back })
          desc.name
          req_bytes
        ≡ returns resp_bytes
  unfolding handle_method server_method
  handle_method-returns req resp req_bytes resp_bytes cq run cp =
      rw (find_method_first front back (server_method desc handler) first)
        (rw cq.read_back (rw run cp.written))

  -- In a service where no earlier method has its name, a method whose handler panics on a request
  -- panics in the same way when it is called with the bytes of that request.
  handle_method-panics :
      (req : Req) (req_bytes : Bytes) (p : Panic)
      → Carries desc.req_marshaller req req_bytes
      → handler.handle req ≡ panics p
      → handle_method
          (record { methods = front ++ server_method desc handler ∷ back })
          desc.name
          req_bytes
        ≡ panics p
  unfolding handle_method server_method
  handle_method-panics req req_bytes p cq run =
      rw (find_method_first front back (server_method desc handler) first)
        (rw cq.read_back (rw run))
