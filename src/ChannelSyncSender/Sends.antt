-- ===== src/ChannelSyncSender/Sends.antt =====
-- The sends of several threads through one `SyncSender` (src/channel_sync_sender.rs).
use grpc_rust.Prelude.{◌≡◌, refl, ap, none, some, List, [], ◌∷◌, map, Option-cases, inl, inr}
use grpc_rust.Outcome.{Outcome, returns, panics, unwrap_none, unwrap_err}
use grpc_rust.ChannelSyncSender.{Channel, SyncSender, channel_sync_sender, broken, send, send_all}

-- What the threads see of a channel: sends succeed as long as the receiver takes the items; the
-- first send without a receiver fails its own `unwrap`, and all later ones find the mutex poisoned.
abbrev pub outcomes :
    {Item : Type 0} (channel : Channel Item)
    → channel.Sender
    → List Item
    → List (Outcome (Unit {0}))
outcomes channel sender [] = []
outcomes channel sender (item ∷ items) = elim (channel.send_wait sender item) [
  | none ↦ panics unwrap_none ∷ map (λ _. panics unwrap_err) items
  | some sender' ↦ returns tt ∷ outcomes channel sender' items
]

module _ {Item : Type 0} (channel : Channel Item) where
  all_poisoned :
      (items : List Item)
      → send_all channel (broken channel) items
        ≡ (broken channel, map (λ _. panics unwrap_err) items)
  unfolding send_all send
  all_poisoned [] = refl
  all_poisoned (item ∷ items) =
      ap (λ (p : SyncSender channel × List (Outcome (Unit {0}))). (p.0, panics unwrap_err ∷ p.1))
        (all_poisoned items)

  -- In whatever order the threads get the lock, their sends on a new channel have these outcomes.
  pub send_all-outcomes :
      (sender : channel.Sender) (items : List Item)
      → (send_all channel (channel_sync_sender channel sender) items).1
        ≡ outcomes channel sender items
  unfolding send_all send channel_sync_sender
  send_all-outcomes sender [] = refl
  send_all-outcomes sender (item ∷ items) = elim (Option-cases (channel.send_wait sender item)) [
    | inl gone ↦
        rw (gone, outcomes)
          (ap (λ (p : SyncSender channel × List (Outcome (Unit {0}))). panics unwrap_none ∷ p.1)
            (all_poisoned items))
    | inr (sender', taken) ↦
        rw (taken, outcomes)
          (ap (λ (r : List (Outcome (Unit {0}))). returns tt ∷ r) (send_all-outcomes sender' items))
  ]
