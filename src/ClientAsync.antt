-- ===== src/ClientAsync.antt =====
-- src/client_async.rs and src/result.rs: the asynchronous client, its calls and its event loop. The
-- `TODO`s of the source are as they stand: a request carries nothing, and the loop only connects.
pub mod Calls
use grpc_rust.Prelude.{ℕ, Option, none, some, List, [], ◌∷◌, Bytes}
use grpc_rust.Outcome.{Outcome, returns, ◌>>=◌, expect, unwrap_none, unwrap_err}
use grpc_rust.Method.{MethodDescriptor}
use grpc_rust.ChannelSyncSender.{Channel, SyncSender, channel_sync_sender, send}

-- `GrpcError`, over the error type of `std::io`.
pub data GrpcError (IoError : Type 0) : Type 0 where
  io : IoError → GrpcError IoError
  other : GrpcError IoError

pub record CallRequest : Type 0 where

-- An item of the channel: `Ok` of a request, or `Err`.
pub data Item (IoError : Type 0) : Type 0 where
  ok : CallRequest → Item IoError
  err : GrpcError IoError → Item IoError

-- What a poll of a `Oneshot` says.
pub data OneshotPoll (A : Type 0) : Type 0 where
  pending : OneshotPoll A
  ready : A → OneshotPoll A
  canceled : OneshotPoll A

-- What is used of the `futures` crate: a oneshot is a cell that its two halves share. The `Complete`
-- half is dropped where it goes out of scope.
pub record Oneshots (A : Type 0) : Type 1 where
  pub Cell : Type 0
  pub oneshot : Cell
  pub drop_complete : Cell → Cell
  pub poll : Cell → OneshotPoll A

-- What a poll of a `GrpcFuture` says.
pub data FuturePoll (IoError A : Type 0) : Type 0 where
  pending : FuturePoll IoError A
  value : A → FuturePoll IoError A
  error : GrpcError IoError → FuturePoll IoError A

-- `oneshot.map_err(|e| GrpcError::Other)`, when it is polled.
unfoldable pub map_err : {IoError A : Type 0} → OneshotPoll A → FuturePoll IoError A
map_err pending = FuturePoll.pending
map_err (ready a) = value a
map_err canceled = error other

module _ {IoError : Type 0} (channel : Channel (Item IoError)) where
  pub record GrpcClientAsync : Type 0 where
    pub tx : SyncSender channel

  head : {Addr : Type 0} → List Addr → Option Addr
  head [] = none
  head (addr ∷ rest) = some addr

  -- `GrpcClientAsync::new`, with the address that the thread of the event loop is given. `resolve`
  -- is `to_socket_addrs`, and `sender` that of the new channel, whose receiver the thread is given.
  unfoldable pub new :
      {Addr : Type 0}
      → (Bytes → ℕ → Option (List Addr))
      → channel.Sender
      → Bytes
      → ℕ
      → Outcome (GrpcClientAsync × Addr)
  unfolding head
  new resolve sender host port = do
    let tx = channel_sync_sender channel sender
    addrs ← expect (resolve host port) unwrap_err
    socket_addr ← expect (head addrs) unwrap_none
    returns (record { tx = tx }, socket_addr)

  -- `call`: its request and its `Complete` half go out of scope at its end, also when it panics; the
  -- cell is what the future polls.
  unfoldable pub call :
      {Req Resp : Type 0} (oneshots : Oneshots Resp)
      → GrpcClientAsync
      → Req
      → MethodDescriptor Req Resp
      → GrpcClientAsync × Outcome oneshots.Cell
  call oneshots self req method =
      let (tx, sent) = send channel self.tx (ok (record {})) in
      (record { tx = tx }, sent >>= λ _. returns (oneshots.drop_complete oneshots.oneshot))

-- `run_event_loop`: `new_loop` is `Loop::new`, and `run` the loop's run of a connect. The receiver
-- of the channel is dropped at its end; nothing takes an item from it.
unfoldable pub run_event_loop :
    {Loop Addr : Type 0}
    → Option Loop
    → (Loop → Addr → Option (Unit {0}))
    → Addr
    → Outcome (Unit {0})
run_event_loop new_loop run socket_addr = do
  lp ← expect new_loop unwrap_err
  expect (run lp socket_addr) unwrap_err
