-- ===== src/Helloworld/Reflection/Wire.antt =====
-- The wire format of protocol buffers, as its documentation has it, and the descriptors of
-- descriptor.proto in it. It describes bytes; the parser itself is in the `protobuf` crate.
use grpc_rust.Prelude.{
  ℕ, zero, suc, ◌+◌, ◌-◌, ◌*◌, ◌/◌, ◌%◌, Option, none, some, List, [], ◌∷◌, Bytes, length, take,
  drop, bytes_eq, ltb, ◌==◌, if◌then◌else◌,
}

-- The two kinds of value that descriptors have on the wire.
pub data Value : Type 0 where
  varint : ℕ → Value
  delimited : Bytes → Value

infixl 5 ◌>>=◌
abbrev ◌>>=◌ {ℓ κ} : {A : Type ℓ} {B : Type κ} → Option A → (A → Option B) → Option B
some a >>= f = f a
none >>= f = none

-- Seven bits a byte, the lowest first; the last byte is below 128.
unfoldable pub read_varint : Bytes → Option (ℕ × Bytes)
read_varint [] = none
read_varint (b ∷ bs) =
    let more = read_varint bs in
    if ltb b 128 then some (b, bs) else (more >>= λ r. some (b - 128 + 128 * r.0, r.1))

-- The value of a wire type, and what stands behind it.
unfoldable pub read_value : ℕ → Bytes → Option (Value × Bytes)
unfolding read_varint
read_value wire_type bytes =
    if wire_type == 0
    then (read_varint bytes >>= λ r. some (varint r.0, r.1))
    else if wire_type == 2
    then (read_varint bytes >>= λ r.
        if ltb (length r.1) r.0 then none else some (delimited (take r.0 r.1), drop r.0 r.1))
    else none

-- The fields of a message in their order; every field takes a byte at least.
unfoldable pub read_fields : ℕ → Bytes → Option (List (ℕ × Value))
unfolding read_value read_varint
read_fields fuel [] = some []
read_fields zero (b ∷ bs) = none
read_fields (suc fuel) (b ∷ bs) = do
  (tag, bs1) ← read_varint (b ∷ bs)
  (value, bs2) ← read_value (tag % 8) bs1
  rest ← read_fields fuel bs2
  some ((tag / 8, value) ∷ rest)

-- The payloads of a delimited field, in their order.
unfoldable pub payloads : ℕ → List (ℕ × Value) → List Bytes
payloads n [] = []
payloads n ((m, varint v) ∷ rest) = payloads n rest
payloads n ((m, delimited v) ∷ rest) =
    let more = payloads n rest in if n == m then v ∷ more else more

unfoldable pub numbers : ℕ → List (ℕ × Value) → List ℕ
numbers n [] = []
numbers n ((m, delimited v) ∷ rest) = numbers n rest
numbers n ((m, varint v) ∷ rest) = let more = numbers n rest in if n == m then v ∷ more else more

-- Of a field that may stand once the last value counts, and the default if there is none.
abbrev last_of {ℓ} : {A : Type ℓ} → A → List A → A
last_of default [] = default
last_of default (v ∷ rest) = last_of v rest

abbrev text : ℕ → List (ℕ × Value) → Bytes
text n fields = last_of [] (payloads n fields)

abbrev number : ℕ → List (ℕ × Value) → ℕ
number n fields = last_of 0 (numbers n fields)

-- What descriptor.proto calls `FieldDescriptorProto`, `DescriptorProto`, `MethodDescriptorProto`,
-- `ServiceDescriptorProto` and `FileDescriptorProto`, without the fields that are not looked at.
pub record Field : Type 0 where
  pub name : Bytes
  pub field_number : ℕ
  pub field_type : ℕ

pub record MessageType : Type 0 where
  pub name : Bytes
  pub fields : List Field

pub record Method : Type 0 where
  pub name : Bytes
  pub input_type : Bytes
  pub output_type : Bytes
  pub client_streaming : ℕ
  pub server_streaming : ℕ

pub record Service : Type 0 where
  pub name : Bytes
  pub methods : List Method

pub record File : Type 0 where
  pub name : Bytes
  pub package_name : Bytes
  pub message_types : List MessageType
  pub services : List Service

-- Every payload is a message that is read in the same way.
unfoldable pub each : {A : Type 0} → (List (ℕ × Value) → Option A) → List Bytes → Option (List A)
unfolding read_fields
each read [] = some []
each read (bytes ∷ payloads) = do
  fields ← read_fields (length bytes) bytes
  a ← read fields
  rest ← each read payloads
  some (a ∷ rest)

abbrev field : List (ℕ × Value) → Option Field
field fs = some (record { name = text 1 fs; field_number = number 3 fs; field_type = number 5 fs })

abbrev message_type : List (ℕ × Value) → Option MessageType
message_type fs = do
  fields ← each field (payloads 2 fs)
  some (record { name = text 1 fs; fields = fields })

abbrev method : List (ℕ × Value) → Option Method
method fs = some (record {
  name = text 1 fs;
  input_type = text 2 fs;
  output_type = text 3 fs;
  client_streaming = number 5 fs;
  server_streaming = number 6 fs;
})

abbrev service : List (ℕ × Value) → Option Service
service fs = do
  methods ← each method (payloads 2 fs)
  some (record { name = text 1 fs; methods = methods })

-- The file that bytes describe.
unfoldable pub described : Bytes → Option File
unfolding read_fields each payloads numbers
described bytes = do
  fs ← read_fields (length bytes) bytes
  message_types ← each message_type (payloads 4 fs)
  services ← each service (payloads 6 fs)
  some (record {
    name = text 1 fs;
    package_name = text 2 fs;
    message_types = message_types;
    services = services;
  })

-- The message type of a name, and a message's field of a name or of a number.
abbrev pub message_named : List MessageType → Bytes → Option MessageType
message_named [] name = none
message_named (m ∷ rest) name = if bytes_eq m.name name then some m else message_named rest name

abbrev pub field_named : List Field → Bytes → Option Field
field_named [] name = none
field_named (f ∷ rest) name = if bytes_eq f.name name then some f else field_named rest name

abbrev pub field_numbered : List Field → ℕ → Option Field
field_numbered [] n = none
field_numbered (f ∷ rest) n = if n == f.field_number then some f else field_numbered rest n
