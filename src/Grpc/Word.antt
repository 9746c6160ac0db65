-- ===== src/Grpc/Word.antt =====
-- The `u32` of a frame header in memory: reading, writing and `u32::to_be`, for both byte orders.
use grpc_rust.Prelude.{ℕ, ◌+◌, ◌*◌, ◌/◌, ◌%◌, ◌^◌, ◌<◌, ◌≡◌, [], ◌∷◌, Bytes, IsByte, arith}

pub data Endian : Type 0 where
  little : Endian
  big : Endian

-- The number that a `u32` holds whose bytes in memory are a, b, c, d.
unfoldable pub load_u32 : Endian → ℕ → ℕ → ℕ → ℕ → ℕ
load_u32 little a b c d = (a + b * 2 ^ 8 + c * 2 ^ 16 + d * 2 ^ 24) % 2 ^ 32
load_u32 big a b c d = (a * 2 ^ 24 + b * 2 ^ 16 + c * 2 ^ 8 + d) % 2 ^ 32

-- `mem::transmute` of a `u32` to its four bytes.
unfoldable pub store_u32 : Endian → ℕ → Bytes
store_u32 little x = x % 256 ∷ (x / 2 ^ 8) % 256 ∷ (x / 2 ^ 16) % 256 ∷ (x / 2 ^ 24) % 256 ∷ []
store_u32 big x = (x / 2 ^ 24) % 256 ∷ (x / 2 ^ 16) % 256 ∷ (x / 2 ^ 8) % 256 ∷ x % 256 ∷ []

swap_bytes : ℕ → ℕ
swap_bytes x =
    x % 256 * 2 ^ 24 + x / 2 ^ 8 % 256 * 2 ^ 16 + x / 2 ^ 16 % 256 * 2 ^ 8 + x / 2 ^ 24 % 256

-- `u32::to_be`
unfoldable pub to_be : Endian → ℕ → ℕ
unfolding swap_bytes
to_be little x = swap_bytes x
to_be big x = x

-- The network byte order, described without a machine: most significant byte first.
abbrev pub be_u32 : ℕ → ℕ → ℕ → ℕ → ℕ
be_u32 a b c d = a * 2 ^ 24 + b * 2 ^ 16 + c * 2 ^ 8 + d

abbrev pub be_bytes : ℕ → Bytes
be_bytes n = n / 2 ^ 24 ∷ (n / 2 ^ 16) % 256 ∷ (n / 2 ^ 8) % 256 ∷ n % 256 ∷ []

pub to_be-load_u32 :
    (endian : Endian) (a b c d : ℕ)
    → IsByte a
    → IsByte b
    → IsByte c
    → IsByte d
    → to_be endian (load_u32 endian a b c d) ≡ be_u32 a b c d
unfolding to_be load_u32
to_be-load_u32 little a b c d ha hb hc hd = omega arith
to_be-load_u32 big a b c d ha hb hc hd = omega arith

pub to_be-load_u32_lt :
    (endian : Endian) (a b c d : ℕ) → to_be endian (load_u32 endian a b c d) < 2 ^ 32
unfolding to_be load_u32
to_be-load_u32_lt little a b c d = omega arith
to_be-load_u32_lt big a b c d = omega arith

pub store_u32-to_be :
    (endian : Endian) (n : ℕ) → n < 2 ^ 32 → store_u32 endian (to_be endian n) ≡ be_bytes n
unfolding to_be store_u32
store_u32-to_be little n h = ground arith
store_u32-to_be big n h = ground arith

pub be_u32-be_bytes :
    (n : ℕ) → be_u32 (n / 2 ^ 24) (n / 2 ^ 16 % 256) (n / 2 ^ 8 % 256) (n % 256) ≡ n
be_u32-be_bytes n = omega arith
