-- ===== src/Marshall/Utf8.antt =====
-- Well-formed UTF-8, as `String::from_utf8` checks it.
use grpc_rust.Prelude.{
  ℕ, zero, suc, Bool, true, false, ◌&&◌, [], ◌∷◌, Bytes, ltb, leb, ◌==◌, if◌then◌else◌, Option,
  none, some,
}

-- What the next byte has to be: the first of a character, or a continuation in `low`..`high` with
-- `more` further continuations behind it.
pub data Utf8State : Type 0 where
  start : Utf8State
  continuation : (low high more : ℕ) → Utf8State

-- The state behind the first byte of a character.
unfoldable pub first_byte : ℕ → Option Utf8State
first_byte b =
    if ltb b 0x80
    then some start
    else if ltb b 0xc2
    then none
    else if ltb b 0xe0
    then some (continuation 0x80 0xbf 0)
    else if b == 0xe0
    then some (continuation 0xa0 0xbf 1)
    else if b == 0xed
    then some (continuation 0x80 0x9f 1)
    else if ltb b 0xf0
    then some (continuation 0x80 0xbf 1)
    else if b == 0xf0
    then some (continuation 0x90 0xbf 2)
    else if ltb b 0xf4
    then some (continuation 0x80 0xbf 2)
    else if b == 0xf4
    then some (continuation 0x80 0x8f 2)
    else none

unfoldable pub after_continuation : ℕ → Utf8State
after_continuation zero = start
after_continuation (suc more) = continuation 0x80 0xbf more

unfoldable pub next_state : Utf8State → ℕ → Option Utf8State
unfolding first_byte after_continuation
next_state start b = first_byte b
next_state (continuation low high more) b =
    if leb low b && leb b high then some (after_continuation more) else none

unfoldable pub accepts : Utf8State → Bytes → Bool
unfolding next_state
accepts start [] = true
accepts (continuation low high more) [] = false
accepts s (b ∷ bs) = elim (next_state s b) [ none ↦ false | some s' ↦ accepts s' bs ]

unfoldable pub is_utf8 : Bytes → Bool
unfolding accepts
is_utf8 bytes = accepts start bytes
