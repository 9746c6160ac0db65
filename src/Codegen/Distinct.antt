-- ===== src/Codegen/Distinct.antt =====
-- When two generated methods of src/codegen.rs have the same path.
use Prim.Native.String.{◌++◌}
use Prim.Native.Char.{Char, code}
use text.Mathlib.TextLemmas.{
  append_assoc, tail-eq_of_cons-eq, cons-eq-cons, nil-append, cons-append,
}
use mathlib.Core.Logic.{◌↔◌}
use grpc_rust.Prelude.{
  ◌≡◌, ◌≢◌, ◌∙◌, refl, ap, sym, subst, String, List, arith, Bool, true, false, if◌then◌else◌, ◌==◌,
}
use grpc_rust.Codegen.Protobuf.{MethodDescriptorProto, ServiceDescriptorProto, FileDescriptorProto}
use grpc_rust.Codegen.Methods.{method_path}
use grpc_rust.Codegen.Services.{service_gen}
use grpc_rust.Codegen.Paths.{method_gen}

-- The character does not occur in the text.
abbrev pub Avoids : Char → String → Type 0
Avoids d String.[] = Unit
Avoids d (String.◌∷◌ c s) = (c ≢ d) × Avoids d s

-- A run over the text that shows it.
abbrev pub occurs_in : Char → String → Bool
occurs_in d String.[] = false
occurs_in d (String.◌∷◌ c s) = if code c == code d then true else occurs_in d s

pub occurs_in-Avoids : (d : Char) (s : String) → occurs_in d s ≡ false → Avoids d s
occurs_in-Avoids d String.[] h = tt
occurs_in-Avoids d (String.◌∷◌ c s) h =
    (λ e. ground (arith, ap code e), occurs_in-Avoids d s (ground arith))

Avoids-append : (d : Char) (s t : String) → Avoids d s → Avoids d t → Avoids d (s ++ t)
Avoids-append d String.[] t hs ht = rw (nil-append t) ht
Avoids-append d (String.◌∷◌ c s) t (hc, hs) ht =
    rw (cons-append c s t) (hc, Avoids-append d s t hs ht)

occurs : (d : Char) (s t : String) → ¬ Avoids d (s ++ String.◌∷◌ d t)
occurs d String.[] t h = (rw (nil-append (String.◌∷◌ d t)) at h).0 refl
occurs d (String.◌∷◌ c s) t h = occurs d s t (rw (cons-append c s (String.◌∷◌ d t)) at h).1

-- What `◌++◌` computes in an equation between two texts that are cut.
at_both :
    (d : Char) (b b' : String) → String.[] ++ String.◌∷◌ d b ≡ String.[] ++ String.◌∷◌ d b' → b ≡ b'
at_both d b b' e =
    tail-eq_of_cons-eq (sym (nil-append (String.◌∷◌ d b)) ∙ e ∙ nil-append (String.◌∷◌ d b'))

at_left :
    (d c : Char) (b a t : String)
    → String.[] ++ String.◌∷◌ d b ≡ String.◌∷◌ c a ++ t
    → (d ≡ c) × (b ≡ a ++ t)
at_left d c b a t e = cons-eq-cons.0 (sym (nil-append (String.◌∷◌ d b)) ∙ e ∙ cons-append c a t)

inside :
    (c c' : Char) (a a' t t' : String)
    → String.◌∷◌ c a ++ t ≡ String.◌∷◌ c' a' ++ t'
    → (c ≡ c') × (a ++ t ≡ a' ++ t')
inside c c' a a' t t' e = cons-eq-cons.0 (sym (cons-append c a t) ∙ e ∙ cons-append c' a' t')

-- Two texts are cut at their first separator.
first_split :
    (d : Char) (a a' b b' : String)
    → Avoids d a
    → Avoids d a'
    → a ++ String.◌∷◌ d b ≡ a' ++ String.◌∷◌ d b'
    → (a ≡ a') × (b ≡ b')
first_split d String.[] String.[] b b' h h' e = (refl, at_both d b b' e)
first_split d String.[] (String.◌∷◌ c a') b b' h (hc, h') e =
    absurd (hc (sym (at_left d c b a' (String.◌∷◌ d b') e).0))
first_split d (String.◌∷◌ c a) String.[] b b' (hc, h) h' e =
    absurd (hc (sym (at_left d c b' a (String.◌∷◌ d b) (sym e)).0))
first_split d (String.◌∷◌ c a) (String.◌∷◌ c' a') b b' (hc, h) (hc', h') e =
    let (ec, rest) = inside c c' a a' (String.◌∷◌ d b) (String.◌∷◌ d b') e in
    let (ea, eb) = first_split d a a' b b' h h' rest in (cc (ea, ec), eb)

-- Two texts are cut at their last separator.
last_split :
    (d : Char) (a a' b b' : String)
    → Avoids d b
    → Avoids d b'
    → a ++ String.◌∷◌ d b ≡ a' ++ String.◌∷◌ d b'
    → (a ≡ a') × (b ≡ b')
last_split d String.[] String.[] b b' h h' e = (refl, at_both d b b' e)
last_split d String.[] (String.◌∷◌ c a') b b' h h' e =
    absurd (occurs d a' b' (subst (Avoids d) (at_left d c b a' (String.◌∷◌ d b') e).1 h))
last_split d (String.◌∷◌ c a) String.[] b b' h h' e =
    absurd (occurs d a b (subst (Avoids d) (at_left d c b' a (String.◌∷◌ d b) (sym e)).1 h'))
last_split d (String.◌∷◌ c a) (String.◌∷◌ c' a') b b' h h' e =
    let (ec, rest) = inside c c' a a' (String.◌∷◌ d b) (String.◌∷◌ d b') e in
    let (ea, eb) = last_split d a a' b b' h h' rest in (cc (ea, ec), eb)

-- The names that protobuf allows: a package has no "/", a service has neither "/" nor ".".
pub record IsNamed (file : FileDescriptorProto) (s : ServiceDescriptorProto) : Type 0 where
  pub package_slash : Avoids "/" file.package_name
  pub service_slash : Avoids "/" s.name
  pub service_dot : Avoids "." s.name

dot-ne-slash : ◌≢◌ {A = Char} "." "/"
dot-ne-slash e = omega (arith, ap code e)

slash : (t : String) → "/" ++ t ≡ String.◌∷◌ "/" t
slash t = cons-append "/" String.[] t ∙ rw (nil-append t)

dot : (t : String) → "." ++ t ≡ String.◌∷◌ "." t
dot t = cons-append "." String.[] t ∙ rw (nil-append t)

before_method :
    (file : FileDescriptorProto) (s : ServiceDescriptorProto)
    → IsNamed file s
    → Avoids "/" (file.package_name ++ String.◌∷◌ "." s.name)
before_method file s n =
    Avoids-append "/" file.package_name (String.◌∷◌ "." s.name) n.package_slash
      (dot-ne-slash, n.service_slash)

-- The path of a method, cut at the slashes.
path_parts :
    (m : MethodDescriptorProto) (s : ServiceDescriptorProto) (file : FileDescriptorProto)
    (root_scope : List FileDescriptorProto)
    → method_path (method_gen m s file root_scope)
      ≡ String.◌∷◌ "/" ((file.package_name ++ String.◌∷◌ "." s.name) ++ String.◌∷◌ "/" m.name)
unfolding service_gen
path_parts m s file root_scope = simp (append_assoc, cons-append, slash, dot)

-- Two methods of generated services have the same path exactly when they have the same package, the
-- same service name and the same method name, if the names are those that protobuf allows.
pub method_path-injective :
    (m m' : MethodDescriptorProto) (s s' : ServiceDescriptorProto)
    (file file' : FileDescriptorProto) (root_scope : List FileDescriptorProto)
    → IsNamed file s
    → IsNamed file' s'
    → (method_path (method_gen m s file root_scope)
        ≡ method_path (method_gen m' s' file' root_scope))
      ↔ ((file.package_name ≡ file'.package_name) × (s.name ≡ s'.name) × (m.name ≡ m'.name))
unfolding service_gen
method_path-injective m m' s s' file file' root_scope n n' = (
  λ e.
      let (services, methods) =
        first_split "/" (file.package_name ++ String.◌∷◌ "." s.name)
          (file'.package_name ++ String.◌∷◌ "." s'.name) m.name m'.name (before_method file s n)
          (before_method file' s' n')
          (tail-eq_of_cons-eq
            (sym (path_parts m s file root_scope) ∙ e ∙ path_parts m' s' file' root_scope)) in
      let (packages, names) =
        last_split "." file.package_name file'.package_name s.name s'.name n.service_dot
          n'.service_dot services in
      (packages, names, methods),
  λ same. rw (same.0, same.1, same.2),
)
