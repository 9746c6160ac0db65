-- ===== src/Marshall/Chars.antt =====
-- Strings of Unicode characters through the string marshaller of src/marshall.rs.
use grpc_rust.Prelude.{
  ℕ, ◌+◌, ◌/◌, ◌%◌, ◌<◌, ◌≤◌, ◌≡◌, ◌∙◌, refl, ◌⊎◌, inl, inr, true, some, List, [], ◌∷◌, ◌++◌, map,
  Bytes, concat, All, ltb, if◌then◌else◌, arith, Bool-cases, ltb→lt, ltb→ge, lt→ltb,
}
use grpc_rust.Marshall.{Carries, marshaller_string, marshaller_string-Carries}
use grpc_rust.Marshall.Utf8.{
  Utf8State, start, continuation, first_byte, after_continuation, next_state, accepts, is_utf8,
}

-- The Unicode scalar values: what a Rust `char` holds.
abbrev pub IsScalar : ℕ → Type 0
IsScalar c = (c < 0xd800) ⊎ ((0xe000 ≤ c) × (c < 0x110000))

-- The UTF-8 encoding of a character, by its table.
unfoldable pub encode_char : ℕ → Bytes
encode_char c =
    if ltb c 0x80
    then c ∷ []
    else if ltb c 0x800
    then (0xc0 + c / 64) ∷ (0x80 + c % 64) ∷ []
    else if ltb c 0x10000
    then (0xe0 + c / 4096) ∷ (0x80 + c / 64 % 64) ∷ (0x80 + c % 64) ∷ []
    else (0xf0 + c / 262144) ∷ (0x80 + c / 4096 % 64) ∷ (0x80 + c / 64 % 64) ∷ (0x80 + c % 64) ∷ []

abbrev pub utf8 : List ℕ → Bytes
utf8 cs = concat (map encode_char cs)

accepts-start :
    (b : ℕ) (rest : Bytes) (s : Utf8State)
    → first_byte b ≡ some s
    → accepts start (b ∷ rest) ≡ accepts s rest
unfolding accepts next_state
accepts-start b rest s h = rw (h, accepts) refl

accepts-continuation :
    (low high more b : ℕ) (rest : Bytes)
    → low ≤ b
    → b ≤ high
    → accepts (continuation low high more) (b ∷ rest) ≡ accepts (after_continuation more) rest
unfolding accepts next_state
accepts-continuation low high more b rest l h = ground arith

two_bytes : (b : ℕ) → 0xc2 ≤ b → b < 0xe0 → first_byte b ≡ some (continuation 0x80 0xbf 0)
unfolding first_byte
two_bytes b l h = ground arith

-- The bounds of the second byte of three.
second_low : ℕ → ℕ
second_low c = if ltb c 0x1000 then 0xa0 else 0x80

second_high : ℕ → ℕ
second_high c = if ltb c 0xd000 then 0xbf else if ltb c 0xe000 then 0x9f else 0xbf

three_bytes :
    (c : ℕ)
    → c < 0x10000
    → first_byte (0xe0 + c / 4096) ≡ some (continuation (second_low c) (second_high c) 1)
unfolding first_byte second_low second_high
three_bytes c h = ground arith

four_low : ℕ → ℕ
four_low c = if ltb c 0x40000 then 0x90 else 0x80

four_high : ℕ → ℕ
four_high c = if ltb c 0x100000 then 0xbf else 0x8f

four_bytes :
    (c : ℕ)
    → c < 0x110000
    → first_byte (0xf0 + c / 262144) ≡ some (continuation (four_low c) (four_high c) 2)
unfolding first_byte four_low four_high
four_bytes c h = ground arith

-- The tail of a character: continuations that may be any.
tail-accepted :
    (c : ℕ) (rest : Bytes)
    → accepts (continuation 0x80 0xbf 0) ((0x80 + c % 64) ∷ rest) ≡ accepts start rest
tail-accepted c rest =
    accepts-continuation 0x80 0xbf 0 (0x80 + c % 64) rest (omega arith) (omega arith)
    ∙ unfold after_continuation in refl

two-accepted :
    (c : ℕ) (rest : Bytes)
    → 0x80 ≤ c
    → c < 0x800
    → accepts start ((0xc0 + c / 64) ∷ (0x80 + c % 64) ∷ rest) ≡ accepts start rest
two-accepted c rest l h =
    accepts-start (0xc0 + c / 64) _ _ (two_bytes (0xc0 + c / 64) (omega arith) (omega arith))
    ∙ tail-accepted c rest

three-accepted :
    (c : ℕ) (rest : Bytes)
    → 0x800 ≤ c
    → c < 0x10000
    → IsScalar c
    → accepts start ((0xe0 + c / 4096) ∷ (0x80 + c / 64 % 64) ∷ (0x80 + c % 64) ∷ rest)
      ≡ accepts start rest
unfolding second_low second_high
three-accepted c rest l h scalar =
    accepts-start (0xe0 + c / 4096) _ _ (three_bytes c h)
    ∙ accepts-continuation (second_low c) (second_high c) 1 (0x80 + c / 64 % 64) _ (ground arith)
        (ground arith)
    ∙ unfold after_continuation in tail-accepted c rest

four-accepted :
    (c : ℕ) (rest : Bytes)
    → 0x10000 ≤ c
    → c < 0x110000
    → accepts start (
        (0xf0 + c / 262144)
        ∷ (0x80 + c / 4096 % 64)
        ∷ (0x80 + c / 64 % 64)
        ∷ (0x80 + c % 64)
        ∷ rest)
      ≡ accepts start rest
unfolding four_low four_high
four-accepted c rest l h =
    accepts-start (0xf0 + c / 262144) _ _ (four_bytes c h)
    ∙ accepts-continuation (four_low c) (four_high c) 2 (0x80 + c / 4096 % 64) _ (ground arith)
        (ground arith)
    ∙ unfold after_continuation in
      accepts-continuation 0x80 0xbf 1 (0x80 + c / 64 % 64) _ (omega arith) (omega arith)
      ∙ unfold after_continuation in tail-accepted c rest

one_accepted : (c : ℕ) (rest : Bytes) → c < 0x80 → accepts start (c ∷ rest) ≡ accepts start rest
one_accepted c rest h = accepts-start c rest start (unfold first_byte in rw (lt→ltb c 0x80 h) refl)

accepts-encode_char :
    (c : ℕ) (rest : Bytes) → IsScalar c → accepts start (encode_char c ++ rest) ≡ accepts start rest
unfolding encode_char
accepts-encode_char c rest scalar = elim (Bool-cases (ltb c 0x80)) [
  | inl h ↦ rw h (one_accepted c rest (ltb→lt _ _ h))
  | inr l ↦ rw l (elim (Bool-cases (ltb c 0x800)) [
    | inl h ↦ rw h (two-accepted c rest (ltb→ge _ _ l) (ltb→lt _ _ h))
    | inr l2 ↦ rw l2 (elim (Bool-cases (ltb c 0x10000)) [
      | inl h ↦ rw h (three-accepted c rest (ltb→ge _ _ l2) (ltb→lt _ _ h) scalar)
      | inr l3 ↦ rw l3 (four-accepted c rest (ltb→ge _ _ l3) (ground arith))
    ])
  ])
]

is_utf8-utf8 : (cs : List ℕ) → All IsScalar cs → is_utf8 (utf8 cs) ≡ true
unfolding is_utf8 accepts
is_utf8-utf8 [] scalars = refl
is_utf8-utf8 (c ∷ cs) (scalar, scalars) =
    accepts-encode_char c (utf8 cs) scalar ∙ is_utf8-utf8 cs scalars

-- The string marshaller writes the UTF-8 encoding of any Unicode characters as it is, and reads it
-- back as the same string.
pub marshaller_string-chars :
    (cs : List ℕ) → All IsScalar cs → Carries marshaller_string (utf8 cs) (utf8 cs)
marshaller_string-chars cs scalars = marshaller_string-Carries (utf8 cs) (is_utf8-utf8 cs scalars)
