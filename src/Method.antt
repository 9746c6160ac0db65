-- ===== src/Method.antt =====
-- src/method.rs: method descriptors, handlers, and the dispatch table of a service.
pub mod Find
pub mod Dispatch
use grpc_rust.Prelude.{Bool, Option, none, some, List, [], ◌∷◌, Bytes, bytes_eq, filter}
use grpc_rust.Outcome.{Outcome, returns, ◌>>=◌, unknown_method, expect}
use grpc_rust.Marshall.{Marshaller}

pub record MethodDescriptor {ℓ κ} (Req : Type ℓ) (Resp : Type κ) : Type (ℓ ⊔ κ) where
  pub name : Bytes
  pub client_streaming : Bool
  pub server_streaming : Bool
  pub req_marshaller : Marshaller Req
  pub resp_marshaller : Marshaller Resp

-- The trait; a handler may panic.
pub record MethodHandler {ℓ κ} (Req : Type ℓ) (Resp : Type κ) : Type (ℓ ⊔ κ) where
  pub handle : Req → Outcome Resp

-- Its print to the console is left out.
unfoldable pub method_handler_echo {ℓ} : {A : Type ℓ} → MethodHandler A A
method_handler_echo = record { handle = λ req. returns req }

-- `MethodHandlerFn::new` and its `handle`
unfoldable pub method_handler_fn {ℓ κ} :
    {Req : Type ℓ} {Resp : Type κ} → (Req → Outcome Resp) → MethodHandler Req Resp
method_handler_fn f = record { handle = λ req. f req }

pub record MethodHandlerDispatchImpl {ℓ κ} (Req : Type ℓ) (Resp : Type κ) : Type (ℓ ⊔ κ) where
  pub desc : MethodDescriptor Req Resp
  pub method_handler : MethodHandler Req Resp

unfoldable pub on_message {ℓ κ} :
    {Req : Type ℓ} {Resp : Type κ} → MethodHandlerDispatchImpl Req Resp → Bytes → Outcome Bytes
on_message self message = do
  req ← self.desc.req_marshaller.read message
  resp ← self.method_handler.handle req
  self.desc.resp_marshaller.write resp

-- The boxed `dyn MethodHandlerDispatch` is its one method.
pub record ServerMethod : Type 0 where
  pub name : Bytes
  pub dispatch : Bytes → Outcome Bytes

-- `ServerMethod::new`
unfoldable pub server_method {ℓ κ} :
    {Req : Type ℓ} {Resp : Type κ}
    → MethodDescriptor Req Resp
    → MethodHandler Req Resp
    → ServerMethod
unfolding on_message
server_method method handler = record {
  name = method.name;
  dispatch = on_message (record { desc = method; method_handler = handler });
}

pub record ServerServiceDefinition : Type 0 where
  pub methods : List ServerMethod

-- `Iterator::next`
abbrev next : List ServerMethod → Option ServerMethod
next [] = none
next (m ∷ rest) = some m

unfoldable pub find_method : ServerServiceDefinition → Bytes → Outcome ServerMethod
find_method self name =
    expect (next (filter (λ m. bytes_eq m.name name) self.methods)) unknown_method

unfoldable pub handle_method : ServerServiceDefinition → Bytes → Bytes → Outcome Bytes
handle_method self name message = do m ← find_method self name; m.dispatch message
