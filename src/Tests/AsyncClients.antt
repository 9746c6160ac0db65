-- ===== src/Tests/AsyncClients.antt =====
-- The asynchronous client at concrete calls.
use grpc_rust.Prelude.{
  ℕ, zero, suc, ◌≡◌, refl, Bool, true, false, Option, none, some, List, [], ◌∷◌, Bytes, ascii, map,
}
use grpc_rust.Outcome.{returns, panics, unwrap_none, unwrap_err}
use grpc_rust.ChannelSyncSender.{Channel, channel_sync_sender}
use grpc_rust.ClientAsync.{
  other, Item, OneshotPoll, canceled, pending, Oneshots, error, new, run_event_loop,
}
use grpc_rust.ClientAsync.Calls.{calls, polled, calls-outcomes}
use grpc_rust.Tests.Fixtures.{echo_descriptor}

-- The sender counts the items that the receiver will still take.
abbrev patience : ℕ → Option ℕ
patience zero = none
patience (suc n) = some n

abbrev counted : Channel (Item ℕ)
counted = record { Sender = ℕ; send_wait = λ s item. patience s }

-- The cell says whether the other half has been dropped.
abbrev poll_cell : Bool → OneshotPoll Bytes
poll_cell true = canceled
poll_cell false = pending

abbrev cells : Oneshots Bytes
cells = record { Cell = Bool; oneshot = false; drop_complete = λ c. true; poll = poll_cell }

calls-outcomes_example :
    map
      (polled counted cells echo_descriptor)
      (calls counted cells echo_descriptor
        (record { tx = channel_sync_sender counted 1 })
        (ascii "a" ∷ ascii "b" ∷ ascii "c" ∷ [])).1
    ≡ returns (error other) ∷ panics unwrap_none ∷ panics unwrap_err ∷ []
calls-outcomes_example =
    calls-outcomes counted cells echo_descriptor 1 (ascii "a" ∷ ascii "b" ∷ ascii "c" ∷ []) refl

no_addresses : Bytes → ℕ → Option (List Bytes)
no_addresses host port = some []

unresolved : new counted no_addresses 1 (ascii "nowhere") 50051 ≡ panics unwrap_none
unfolding new no_addresses
unresolved = refl

refused :
    run_event_loop (some 0) (λ (lp : ℕ) (addr : Bytes). none) (ascii "127.0.0.1")
    ≡ panics unwrap_err
unfolding run_event_loop
refused = refl
