-- ===== src/Server/Debug.antt =====
-- `BsDebug` of src/server.rs: byte strings in the server's console output.
pub mod Printed
use grpc_rust.Prelude.{
  All-append, ℕ, ◌+◌, ◌/◌, ◌%◌, ◌≤◌, ◌<◌, Bool, ◌&&◌, [], ◌∷◌, ◌++◌, Bytes, IsByte, All, ltb, leb,
  if◌then◌else◌, arith, ascii,
}
use grpc_rust.Solicit.{Solicit}

-- A digit as `{:x}` writes it.
abbrev hex_digit : ℕ → ℕ
hex_digit d = if ltb d 10 then 48 + d else 87 + d

-- `\x{:02x}`
abbrev escape : ℕ → Bytes
escape c = b'\\' ∷ b'x' ∷ hex_digit (c / 16) ∷ hex_digit (c % 16) ∷ []

-- ASCII printable
abbrev is_printable : ℕ → Bool
is_printable c = leb 0x20 c && ltb c 0x7f

fmt_byte : ℕ → Bytes
fmt_byte c = if is_printable c then c ∷ [] else escape c

unfoldable pub fmt_bytes : Bytes → Bytes
unfolding fmt_byte
fmt_bytes [] = []
fmt_bytes (c ∷ cs) = fmt_byte c ++ fmt_bytes cs

-- The text of `b"…"`, as character codes.
unfoldable pub fmt : Bytes → Bytes
unfolding fmt_bytes
fmt bytes = ascii "b\"" ++ fmt_bytes bytes ++ ascii "\""

abbrev pub Printable : ℕ → Type 0
Printable c = (0x20 ≤ c) × (c < 0x7f)

fmt_byte-Printable : (c : ℕ) → IsByte c → All Printable (fmt_byte c)
unfolding fmt_byte
fmt_byte-Printable c h = ground arith

fmt_bytes-Printable : (bytes : Bytes) → All IsByte bytes → All Printable (fmt_bytes bytes)
unfolding fmt_bytes
fmt_bytes-Printable [] h = tt
fmt_bytes-Printable (c ∷ cs) (hc, h) =
    All-append Printable (fmt_byte c) (fmt_bytes cs) (fmt_byte-Printable c hc)
      (fmt_bytes-Printable cs h)

-- Whatever bytes a peer sends, the console gets printable ASCII.
pub fmt-Printable : (bytes : Bytes) → All IsByte bytes → All Printable (fmt bytes)
unfolding fmt
fmt-Printable bytes h =
    All-append Printable (ascii "b\"" ++ fmt_bytes bytes) (ascii "\"")
      (All-append Printable (ascii "b\"") (fmt_bytes bytes) (omega arith)
        (fmt_bytes-Printable bytes h))
      (omega arith)

-- `HeaderDebug`: a header, its name and its value.
unfoldable pub fmt_header : (http : Solicit) → http.Header → Bytes
fmt_header http h =
    ascii "Header { name: "
    ++ fmt (http.header_name h)
    ++ ascii ", value: "
    ++ fmt (http.header_value h)
    ++ ascii " }"
