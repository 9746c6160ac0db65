-- ===== src/Tests/Senders.antt =====
-- A channel whose receiver goes away, and debug output.
use grpc_rust.Prelude.{
  ℕ, zero, suc, ◌≡◌, refl, Option, none, some, [], ◌∷◌, All, Bytes, ascii, arith,
}
use grpc_rust.Outcome.{returns, panics, unwrap_none, unwrap_err}
use grpc_rust.ChannelSyncSender.{Channel, channel_sync_sender, send_all}
use grpc_rust.ChannelSyncSender.Sends.{send_all-outcomes}
use grpc_rust.Server.Debug.{fmt, Printable}
use grpc_rust.Server.Debug.Printed.{fmt_exact}
use mathlib.Core.Logic.{◌↔◌}

-- The sender counts the items that the receiver will still take.
abbrev patience : ℕ → Option ℕ
patience zero = none
patience (suc n) = some n

abbrev counted : Channel ℕ
counted = record { Sender = ℕ; send_wait = λ s item. patience s }

send_all-outcomes_example :
    (send_all counted (channel_sync_sender counted 1) (5 ∷ 6 ∷ 7 ∷ [])).1
    ≡ returns tt ∷ panics unwrap_none ∷ panics unwrap_err ∷ []
send_all-outcomes_example = send_all-outcomes counted 1 (5 ∷ 6 ∷ 7 ∷ [])

debug_output : fmt (b'a' ∷ 0 ∷ 0xab ∷ []) ≡ ascii "b\"a\\x00\\xab\""
unfolding fmt
debug_output = refl

abbrev some_bytes : Bytes
some_bytes = b'a' ∷ 0 ∷ 0xab ∷ []

abbrev a_quote : Bytes
a_quote = b'"' ∷ []

fmt_exact_example :
    All Printable (fmt (ascii "\\x00")) × ((fmt some_bytes ≡ fmt a_quote) ↔ (some_bytes ≡ a_quote))
fmt_exact_example =
    fmt_exact (ascii "\\x00") some_bytes a_quote (omega arith)
      ((omega arith, omega arith), ((omega arith, omega arith), ((omega arith, omega arith), tt)))
      ((omega arith, omega arith), tt)

-- A backslash is printed as it is, so these four characters look like the byte 0.
backslash_ambiguous : fmt (ascii "\\x00") ≡ fmt (0 ∷ [])
unfolding fmt
backslash_ambiguous = refl
