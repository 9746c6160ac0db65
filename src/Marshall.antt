-- ===== src/Marshall.antt =====
-- src/marshall.rs and src/grpc_protobuf.rs: values to bytes and back.
-- A Rust `String` is its bytes, which are valid UTF-8.
pub mod Utf8
pub mod Chars
use grpc_rust.Prelude.{ℕ, Bool, true, false, Option, none, some, Bytes, ◌≡◌, refl, if◌then◌else◌}
use grpc_rust.Outcome.{Outcome, returns, ◌>>=◌, ◌>>◌, unwrap_err, expect}
use Utf8.{is_utf8}

pub record Marshaller {ℓ} (M : Type ℓ) : Type ℓ where
  pub write : M → Outcome Bytes
  pub read : Bytes → Outcome M

-- `String::from_utf8`, its error without the details that nobody reads.
unfoldable pub from_utf8 : Bytes → Option Bytes
from_utf8 bytes = if is_utf8 bytes then some bytes else none

unfoldable pub marshaller_string : Marshaller Bytes
unfolding from_utf8
marshaller_string = record {
  write = λ m. returns m;
  read = λ bytes. expect (from_utf8 bytes) unwrap_err;
}

unfoldable pub marshaller_bytes : Marshaller Bytes
marshaller_bytes = record { write = λ m. returns m; read = λ bytes. returns bytes }

-- What src/grpc_protobuf.rs calls of the protobuf crate on a message type. `none` is an `Err`.
-- `check_initialized` may panic; what it returns is dropped.
pub record Message {ℓ} (M : Type ℓ) : Type ℓ where
  pub write_to_bytes : M → Option Bytes
  pub new : M
  pub merge_from : M → Bytes → Outcome (Option M)
  pub check_initialized : M → Outcome (Unit {0})

unfoldable pub marshaller_protobuf {ℓ} : {M : Type ℓ} → Message M → Marshaller M
marshaller_protobuf message = record {
  write = λ m. expect (message.write_to_bytes m) unwrap_err;
  read = λ buf. do
    merged ← message.merge_from message.new buf
    r ← expect merged unwrap_err
    message.check_initialized r
    returns r;
}

-- `bytes` stands for `value` on the wire: it is what is written, and it is read back.
pub record Carries {ℓ} {M : Type ℓ} (m : Marshaller M) (value : M) (bytes : Bytes) : Type ℓ where
  pub written : m.write value ≡ returns bytes
  pub read_back : m.read bytes ≡ returns value

pub marshaller_bytes-Carries : (value : Bytes) → Carries marshaller_bytes value value
unfolding marshaller_bytes
marshaller_bytes-Carries value = record { written = refl; read_back = refl }

pub marshaller_string-Carries :
    (value : Bytes) → is_utf8 value ≡ true → Carries marshaller_string value value
unfolding marshaller_string
marshaller_string-Carries value h = record { written = refl; read_back = rw h }

-- What the protobuf marshaller relies on: the message is written, and parsing from a fresh message
-- gives it back, initialised.
pub marshaller_protobuf-Carries {ℓ} :
    {M : Type ℓ} (message : Message M) (value : M) (bytes : Bytes)
    → message.write_to_bytes value ≡ some bytes
    → message.merge_from message.new bytes ≡ returns (some value)
    → message.check_initialized value ≡ returns tt
    → Carries (marshaller_protobuf message) value bytes
unfolding marshaller_protobuf
marshaller_protobuf-Carries message value bytes w r c = record {
  written = rw w;
  read_back = rw r (rw c);
}
