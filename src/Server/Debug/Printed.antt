-- ===== src/Server/Debug/Printed.antt =====
-- What the debug form of src/server.rs tells of a byte string.
use mathlib.Core.Logic.{◌↔◌}
use grpc_rust.Prelude.{
  append_assoc, ℕ, ◌/◌, ◌%◌, ◌<◌, ◌≡◌, ◌≢◌, ◌∙◌, sym, refl, ap, [], ◌∷◌, ◌++◌, Bytes, IsByte, All,
  length, length-append, Bool-cases, inl, inr, arith, ascii,
}
use grpc_rust.Server.Debug.{
  is_printable, escape, hex_digit, fmt_byte, fmt_bytes, fmt, Printable, fmt-Printable,
}

-- A byte other than the backslash, which starts an escape.
abbrev pub Plain : ℕ → Type 0
Plain c = IsByte c × (c ≢ b'\\')

hex_digit-injective : (c d : ℕ) → c < 16 → d < 16 → hex_digit c ≡ hex_digit d → c ≡ d
hex_digit-injective c d hc hd e = ground arith

head_eq : {x y : ℕ} {xs ys : Bytes} → x ∷ xs ≡ y ∷ ys → (x ≡ y) × (xs ≡ ys)
head_eq e = (cc, cc)

escape-injective :
    (c d : ℕ) (xs ys : Bytes)
    → IsByte c
    → IsByte d
    → escape c ++ xs ≡ escape d ++ ys
    → (c ≡ d) × (xs ≡ ys)
escape-injective c d xs ys hc hd e =
    let (high, more) = head_eq (head_eq (head_eq e).1).1 in
    let (low, rest) = head_eq more in
    let h : c / 16 ≡ d / 16 =
      hex_digit-injective (c / 16) (d / 16) (omega arith) (omega arith) high in
    let l : c % 16 ≡ d % 16 =
      hex_digit-injective (c % 16) (d % 16) (omega arith) (omega arith) low in
    (omega arith, rest)

-- The forms of two bytes are told apart at their start.
fmt_byte-injective :
    (c d : ℕ) (xs ys : Bytes)
    → Plain c
    → Plain d
    → fmt_byte c ++ xs ≡ fmt_byte d ++ ys
    → (c ≡ d) × (xs ≡ ys)
unfolding fmt_byte
fmt_byte-injective c d xs ys (hc, pc) (hd, pd) e = elim (Bool-cases (is_printable c)) [
  | inl kc ↦ elim (Bool-cases (is_printable d)) [
    | inl kd ↦ head_eq (rw (kc, kd) at e)
    | inr kd ↦ absurd (pc (head_eq (rw (kc, kd) at e)).0)
  ]
  | inr kc ↦ elim (Bool-cases (is_printable d)) [
    | inl kd ↦ absurd (pd (sym (head_eq (rw (kc, kd) at e)).0))
    | inr kd ↦ escape-injective c d xs ys hc hd (rw (kc, kd) at e)
  ]
]

fmt_byte_longer : (c : ℕ) → 0 < length (fmt_byte c)
unfolding fmt_byte
fmt_byte_longer c = ground arith

fmt_bytes-injective :
    (xs ys end : Bytes)
    → All Plain xs
    → All Plain ys
    → fmt_bytes xs ++ end ≡ fmt_bytes ys ++ end
    → xs ≡ ys
unfolding fmt_bytes
fmt_bytes-injective [] [] end hx hy e = refl
fmt_bytes-injective [] (d ∷ ys) end hx hy e =
    absurd (omega (arith, ap length e, length-append {A = ℕ}, fmt_byte_longer d))
fmt_bytes-injective (c ∷ xs) [] end hx hy e =
    absurd (omega (arith, ap length e, length-append {A = ℕ}, fmt_byte_longer c))
fmt_bytes-injective (c ∷ xs) (d ∷ ys) end (hc, hx) (hd, hy) e =
    let (same, rest) = fmt_byte-injective c d (fmt_bytes xs ++ end) (fmt_bytes ys ++ end) hc hd (
      sym (append_assoc (fmt_byte c) (fmt_bytes xs) end)
      ∙ e
      ∙ append_assoc (fmt_byte d) (fmt_bytes ys) end) in
    (λ i. same i ∷ fmt_bytes-injective xs ys end hx hy rest i)

-- The debug form of any byte string is printable ASCII, and of byte strings without a backslash it
-- tells what the bytes are: two of them have the same form exactly when they are the same.
pub fmt_exact :
    (any xs ys : Bytes)
    → All IsByte any
    → All Plain xs
    → All Plain ys
    → All Printable (fmt any) × ((fmt xs ≡ fmt ys) ↔ (xs ≡ ys))
unfolding fmt
fmt_exact any xs ys h hx hy = (
  fmt-Printable any h,
  (λ e. fmt_bytes-injective xs ys (ascii "\"") hx hy (head_eq (head_eq e).1).1, ap fmt),
)
