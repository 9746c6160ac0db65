-- ===== src/ClientAsync/Calls.antt =====
-- The calls of several threads on one `GrpcClientAsync` (src/client_async.rs).
use grpc_rust.Prelude.{◌≡◌, ◌∙◌, refl, ap, List, [], ◌∷◌, map}
use grpc_rust.Outcome.{Outcome, returns, panics, stuck, ◌>>=◌}
use grpc_rust.Method.{MethodDescriptor}
use grpc_rust.ChannelSyncSender.{Channel, SyncSender, channel_sync_sender, send, send_all}
use grpc_rust.ChannelSyncSender.Sends.{outcomes, send_all-outcomes}
use grpc_rust.ClientAsync.{
  other, Item, ok, canceled, Oneshots, FuturePoll, error, map_err, GrpcClientAsync, call,
}

module _ {IoError Req Resp : Type 0} (channel : Channel (Item IoError)) (oneshots : Oneshots Resp)
    (method : MethodDescriptor Req Resp) where
  -- The calls, in the order in which they get the lock of the sender.
  unfoldable pub calls :
      GrpcClientAsync channel → List Req → GrpcClientAsync channel × List (Outcome oneshots.Cell)
  calls self [] = (self, [])
  calls self (req ∷ reqs) =
      let (self', future) = call channel oneshots self req method in
      let (last, futures) = calls self' reqs in (last, future ∷ futures)

  -- What a poll of the future says, if the call returns one.
  abbrev pub polled : Outcome oneshots.Cell → Outcome (FuturePoll IoError Resp)
  unfolding map_err
  polled future = future >>= λ cell. returns (map_err (oneshots.poll cell))

  polled-dropped :
      (sent : Outcome (Unit {0}))
      → oneshots.poll (oneshots.drop_complete oneshots.oneshot) ≡ canceled
      → polled (sent >>= λ _. returns (oneshots.drop_complete oneshots.oneshot))
        ≡ (sent >>= λ _. returns (error other))
  unfolding polled map_err
  polled-dropped (returns u) dropped = rw dropped refl
  polled-dropped (panics p) dropped = refl
  polled-dropped stuck dropped = refl

  calls-sends :
      (tx : SyncSender channel) (reqs : List Req)
      → oneshots.poll (oneshots.drop_complete oneshots.oneshot) ≡ canceled
      → map polled (calls (record { tx = tx }) reqs).1
        ≡ map
            (λ sent. sent >>= λ _. returns (error other))
            (send_all channel tx (map (λ _. ok (record {})) reqs)).1
  unfolding calls call send_all polled
  calls-sends tx [] dropped = refl
  calls-sends tx (req ∷ reqs) dropped = λ i.
      polled-dropped (send channel tx (ok (record {}))).1 dropped i
      ∷ calls-sends (send channel tx (ok (record {}))).0 reqs dropped i

  -- If a oneshot whose other half is dropped polls as canceled: calls through a new client, in the
  -- order in which their threads get the lock, return futures that fail with `GrpcError::Other`, and
  -- never one with a response, until one of them finds that the event loop has dropped the receiver.
  -- That call panics, and so do all later ones, on the poisoned lock.
  pub calls-outcomes :
      (sender : channel.Sender) (reqs : List Req)
      → oneshots.poll (oneshots.drop_complete oneshots.oneshot) ≡ canceled
      → map polled (calls (record { tx = channel_sync_sender channel sender }) reqs).1
        ≡ map
            (λ sent. sent >>= λ _. returns (error other))
            (outcomes channel sender (map (λ _. ok (record {})) reqs))
  calls-outcomes sender reqs dropped =
      calls-sends (channel_sync_sender channel sender) reqs dropped
      ∙ ap (map (λ sent. sent >>= λ _. returns (error other)))
          (send_all-outcomes channel sender (map (λ _. ok (record {})) reqs))
