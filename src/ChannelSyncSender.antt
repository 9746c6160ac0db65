-- ===== src/ChannelSyncSender.antt =====
-- src/channel_sync_sender.rs: a sender that many threads share, behind a mutex. The mutex makes each
-- `send` one step; a panic in it poisons the mutex, so the state comes back beside the outcome.
pub mod Sends
use grpc_rust.Prelude.{
  ℕ, ◌≡◌, ◌∙◌, refl, ap, Bool, true, false, Option, none, some, List, [], ◌∷◌, ◌++◌, append_assoc,
  append-nil, arith, Option-cases, inl, inr,
}
use grpc_rust.Outcome.{Panic, Outcome, returns, panics, unwrap_none, unwrap_err}

-- What is used of the `futures` crate: a channel's sender takes an item and is given back when the
-- item has been received; `none` means that the receiver is gone (`wait().ok()`).
pub record Channel (Item : Type 0) : Type 1 where
  pub Sender : Type 0
  pub send_wait : Sender → Item → Option Sender

module _ {Item : Type 0} (channel : Channel Item) where
  open channel use {Sender, send_wait}

  -- `Mutex<Option<Sender>>`
  pub record SyncSender : Type 0 where
    pub poisoned : Bool
    pub sender : Option Sender

  -- `channel_sync_sender`, on the sender of a new channel.
  unfoldable pub channel_sync_sender : Sender → SyncSender
  channel_sync_sender sender = record { poisoned = false; sender = some sender }

  -- The state that a panic leaves: the sender has been taken out, and the guard poisons the mutex.
  abbrev pub broken : SyncSender
  broken = record { poisoned = true; sender = none }

  give_back : Option Sender → SyncSender × Outcome (Unit {0})
  give_back none = (broken, panics unwrap_none)
  give_back (some sender) = (record { poisoned = false; sender = some sender }, returns tt)

  take_and_send : Option Sender → Item → SyncSender × Outcome (Unit {0})
  unfolding give_back
  take_and_send none item = (broken, panics unwrap_none)
  take_and_send (some sender) item = give_back (send_wait sender item)

  unfoldable pub send : SyncSender → Item → SyncSender × Outcome (Unit {0})
  unfolding take_and_send
  send self item = elim self.poisoned [
    | true ↦ (self, panics unwrap_err)
    | false ↦ take_and_send self.sender item
  ]

  -- The sends of all threads, in the order in which they get the lock.
  unfoldable pub send_all : SyncSender → List Item → SyncSender × List (Outcome (Unit {0}))
  send_all self [] = (self, [])
  send_all self (item ∷ items) =
      let (self', r) = send self item in let (last, rs) = send_all self' items in (last, r ∷ rs)
