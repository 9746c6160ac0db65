-- ===== src/Codegen/Registered.antt =====
-- The names that the generator of src/codegen.rs registers, against the dispatch of src/method.rs.
use Prim.Native.String.{◌++◌ as text_append}
use text.Mathlib.TextEquality.{Char-path}
use text.Mathlib.TextLemmas.{append_cancel_left}
use mathlib.Core.List.{map-append}
use grpc_rust.Prelude.{
  ◌≡◌, ◌≢◌, ◌∙◌, refl, ap, sym, List, [], ◌∷◌, ◌++◌, map, Bytes, ascii, String, All, false,
  bytes_eq, bytes_eq→eq, Bool-cases, inl, inr,
}
use grpc_rust.Outcome.{Outcome}
use grpc_rust.Method.{ServerMethod, handle_method}
use grpc_rust.Method.Find.{Absent, find_method_first}
use grpc_rust.Codegen.Protobuf.{MethodDescriptorProto, ServiceDescriptorProto, FileDescriptorProto}
use grpc_rust.Codegen.Methods.{MethodGen, method_path}
use grpc_rust.Codegen.Paths.{method_gen}
use grpc_rust.Codegen.Services.{service_gen}

cons-injective {ℓ} : {A : Type ℓ} {x y : A} {xs ys : List A} → x ∷ xs ≡ y ∷ ys → (x ≡ y) × (xs ≡ ys)
cons-injective e = (cc, cc)

ascii-injective : (s t : String) → ascii s ≡ ascii t → s ≡ t
ascii-injective String.[] String.[] e = refl
ascii-injective String.[] (String.◌∷◌ c t) e = cc
ascii-injective (String.◌∷◌ c s) String.[] e = cc
ascii-injective (String.◌∷◌ c s) (String.◌∷◌ d t) e =
    let (head, tail) = cons-injective e in cc (Char-path c d head, ascii-injective s t tail)

-- A method of the service with what the server does for it.
abbrev pub Served : Type 0
Served = MethodGen × (Bytes → Outcome Bytes)

abbrev pub served_method : Served → ServerMethod
served_method (g, run) = record { name = ascii (method_path g); dispatch = run }

All-around {ℓ κ} :
    {A : Type ℓ} (P : A → Type κ) (front back : List A) (x : A)
    → All P (front ++ x ∷ back)
    → All P front × P x
All-around P [] back x (h, _) = (tt, h)
All-around P (y ∷ front) back x (hy, h) =
    let (hf, hx) = All-around P front back x h in ((hy, hf), hx)

module _ (s : ServiceDescriptorProto) (file : FileDescriptorProto)
    (root_scope : List FileDescriptorProto) where
  -- The generated path of each method begins with the service's.
  abbrev OfService : Served → Type 0
  OfService x = x.0.service_path ≡ (service_gen s file root_scope).service_path

  served-OfService :
      (protos : List MethodDescriptorProto) (served : List Served)
      → map (λ (x : Served). x.0) served ≡ map (λ m. method_gen m s file root_scope) protos
      → All OfService served
  served-OfService protos [] e = tt
  served-OfService [] (x ∷ served) e = cc
  served-OfService (m ∷ protos) (x ∷ served) e =
      let (first, rest) = cons-injective e in
      (ap (λ (g : MethodGen). g.service_path) first, served-OfService protos served rest)

  other-name :
      (x : Served) (g : MethodGen)
      → OfService x
      → g.service_path ≡ (service_gen s file root_scope).service_path
      → x.0.proto.name ≢ g.proto.name
      → bytes_eq (ascii (method_path x.0)) (ascii (method_path g)) ≡ false
  other-name x g fx there nx =
      elim (Bool-cases (bytes_eq (ascii (method_path x.0)) (ascii (method_path g)))) [
        | inr h ↦ h
        | inl h ↦
            let e = ascii-injective (method_path x.0) (method_path g) (bytes_eq→eq _ _ h) in
            let e' =
              ap (λ p. text_append p (text_append "/" x.0.proto.name)) (there ∙ sym fx) ∙ e in
            absurd (nx (append_cancel_left "/" _ _ (append_cancel_left g.service_path _ _ e')))
      ]

  absent :
      (front : List Served) (g : MethodGen)
      → All OfService front
      → g.service_path ≡ (service_gen s file root_scope).service_path
      → All (λ (x : Served). x.0.proto.name ≢ g.proto.name) front
      → Absent (ascii (method_path g)) (map served_method front)
  absent [] g f there new = tt
  absent (x ∷ front) g (fx, f) there (nx, new) =
      (other-name x g fx there nx, absent front g f there new)

  -- A server has one method for each method of the service, in the service's order, each under the
  -- path that the generator gives it. Then a message for the path of a method goes to what the server
  -- does for this method, if no earlier method of the service has the same name.
  pub handle_method-generated :
      (front back : List Served) (g : MethodGen) (run : Bytes → Outcome Bytes) (message : Bytes)
      → map (λ (x : Served). x.0) (front ++ (g, run) ∷ back)
        ≡ (service_gen s file root_scope).methods
      → All (λ (x : Served). x.0.proto.name ≢ g.proto.name) front
      → handle_method
          (record { methods = map served_method (front ++ (g, run) ∷ back) })
          (ascii (method_path g))
          message
        ≡ run message
  unfolding handle_method
  handle_method-generated front back g run message e new =
      let (f, there) =
        All-around OfService front back (g, run)
          (served-OfService s.methods (front ++ (g, run) ∷ back)
            (e ∙ unfold service_gen in refl)) in
      rw (
        map-append served_method front ((g, run) ∷ back),
        find_method_first (map served_method front) (map served_method back)
            (served_method (g, run)) (absent front g f there new),
      )
