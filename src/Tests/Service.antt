-- ===== src/Tests/Service.antt =====
-- Dispatch at concrete inputs.
use grpc_rust.Prelude.{
  ◌≡◌, refl, true, false, bytes_eq, filter, [], ◌∷◌, Bytes, ascii, inl, inr, arith,
}
use grpc_rust.Outcome.{returns, panics, user, unknown_method}
use grpc_rust.Marshall.{Carries, marshaller_string, marshaller_bytes}
use grpc_rust.Marshall.Chars.{utf8, marshaller_string-chars}
use grpc_rust.Marshall.Utf8.{is_utf8}
use grpc_rust.Method.{
  MethodHandler, ServerMethod, server_method, method_handler_echo, method_handler_fn, find_method,
  handle_method,
}
use grpc_rust.Helloworld.Programs.{temp_service, temp_method}
use grpc_rust.Tests.Fixtures.{say_hello, echo_descriptor, echo_method}

abbrev bad_handler : MethodHandler Bytes Bytes
bad_handler = method_handler_fn (λ req. panics (user 7))

abbrev other_method : ServerMethod
other_method = server_method (record echo_descriptor { name = ascii "/x.Y/Z" }) bad_handler

first_method_found :
    find_method (record { methods = other_method ∷ echo_method ∷ [] }) say_hello
    ≡ returns echo_method
unfolding find_method filter bytes_eq server_method
first_method_found = refl

unknown_method_panics :
    find_method (record { methods = other_method ∷ [] }) say_hello ≡ panics unknown_method
unfolding find_method filter bytes_eq server_method
unknown_method_panics = refl

second_method_answers :
    handle_method
      (record { methods = other_method ∷ server_method echo_descriptor method_handler_echo ∷ [] })
      say_hello
      (ascii "ping")
    ≡ returns (ascii "ping")
unfolding handle_method find_method filter bytes_eq server_method method_handler_echo
    marshaller_bytes
second_method_answers = refl

bad_handler_panics :
    handle_method
      (record { methods = server_method echo_descriptor bad_handler ∷ [] })
      say_hello
      (ascii "ping")
    ≡ panics (user 7)
unfolding handle_method find_method filter bytes_eq server_method method_handler_fn marshaller_bytes
bad_handler_panics = refl

-- One to four bytes a character; an overlong form and a lone continuation are refused.
utf8_accepted :
    is_utf8 (0x41 ∷ 0xc3 ∷ 0xa9 ∷ 0xe2 ∷ 0x82 ∷ 0xac ∷ 0xf0 ∷ 0x9f ∷ 0x98 ∷ 0x80 ∷ []) ≡ true
unfolding is_utf8
utf8_accepted = refl

utf8_refused : (is_utf8 (0xc0 ∷ 0x80 ∷ []) ≡ false) × (is_utf8 (0x80 ∷ []) ≡ false)
unfolding is_utf8
utf8_refused = (refl, refl)

-- One character of each length.
marshaller_string-chars_example :
    Carries marshaller_string
      (utf8 (0x41 ∷ 0xe9 ∷ 0x20ac ∷ 0x1f600 ∷ []))
      (utf8 (0x41 ∷ 0xe9 ∷ 0x20ac ∷ 0x1f600 ∷ []))
marshaller_string-chars_example =
    marshaller_string-chars (0x41 ∷ 0xe9 ∷ 0x20ac ∷ 0x1f600 ∷ [])
      (inl (omega arith), (inl (omega arith), (inl (omega arith), (inr (omega arith), tt))))

temp_service_echoes :
    handle_method temp_service (ascii "/helloworld.Greeter/SayHello") (ascii "x")
    ≡ returns (ascii "x")
unfolding handle_method find_method temp_service temp_method filter bytes_eq server_method
    method_handler_echo marshaller_bytes
temp_service_echoes = refl
