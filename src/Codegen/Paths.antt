-- ===== src/Codegen/Paths.antt =====
-- The method names that src/codegen.rs gives, against the paths of the gRPC protocol.
use Prim.Native.String.{◌++◌, count}
use text.Mathlib.Text.{◌==◌ as str_eq}
use text.Mathlib.TextEquality.{eq_iff}
use text.Mathlib.TextLemmas.{length-append, append_assoc}
use grpc_rust.Prelude.{◌≡◌, ◌≢◌, ap, String, arith, if◌then◌else◌, Bool-cases, inl, inr}
use grpc_rust.Codegen.Protobuf.{MethodDescriptorProto, ServiceDescriptorProto, FileDescriptorProto}
use grpc_rust.Codegen.Methods.{MethodGen, method_path}
use grpc_rust.Codegen.Services.{service_gen}
use mathlib.Core.Logic.{◌↔◌}
use grpc_rust.Prelude.{List}

-- "/" Service-Name "/" {method name}, where the service name has its package in front, if any.
abbrev pub grpc_path : String → String → String → String
grpc_path package_name service method =
    "/"
    ++ ((if str_eq package_name "" then service else (package_name ++ ("." ++ service)))
        ++ ("/" ++ method))

abbrev pub method_gen :
    MethodDescriptorProto
    → ServiceDescriptorProto
    → FileDescriptorProto
    → List FileDescriptorProto
    → MethodGen
method_gen m proto file root_scope = record {
  proto = m;
  service_path = (service_gen proto file root_scope).service_path;
  root_scope = root_scope;
}

longer :
    (m : MethodDescriptorProto) (s : ServiceDescriptorProto) (file : FileDescriptorProto)
    (root_scope : List FileDescriptorProto)
    → ¬ (method_path (method_gen m s file root_scope) ≡ "/" ++ (s.name ++ ("/" ++ m.name)))
unfolding service_gen
longer m s file root_scope e = omega (arith, ap count e, length-append)

-- The name of a generated method is its gRPC path exactly when the file has a package.
pub method_path-grpc_path :
    (m : MethodDescriptorProto) (s : ServiceDescriptorProto) (file : FileDescriptorProto)
    (root_scope : List FileDescriptorProto)
    → (method_path (method_gen m s file root_scope) ≡ grpc_path file.package_name s.name m.name)
      ↔ (file.package_name ≢ "")
unfolding service_gen
method_path-grpc_path m s file root_scope = (
  λ e none. longer m s file root_scope (rw ((eq_iff file.package_name "").1 none) at e),
  λ named. elim (Bool-cases (str_eq file.package_name "")) [
    | inl h ↦ absurd (named ((eq_iff file.package_name "").0 h))
    | inr h ↦ rw h (simp append_assoc)
  ],
)
