-- ===== src/Method/Find.antt =====
-- Which method `find_method` of src/method.rs finds.
use grpc_rust.Prelude.{
  ◌≡◌, refl, ap, ◌⊎◌, inl, inr, false, List, [], ◌∷◌, ◌++◌, Bytes, All, bytes_eq, bytes_eq_refl,
  bytes_eq→eq, filter, arith, Bool-cases, if◌then◌else◌,
}
use grpc_rust.Outcome.{returns, panics, unknown_method}
use grpc_rust.Method.{ServerMethod, find_method}

-- No method of the list has the name.
abbrev pub Absent : Bytes → List ServerMethod → Type 0
Absent name methods = All (λ m. bytes_eq m.name name ≡ false) methods

-- The first method of the name, with those in front of it and behind it.
pub record FirstNamed (methods : List ServerMethod) (name : Bytes) (m : ServerMethod) : Type 0 where
  pub front : List ServerMethod
  pub back : List ServerMethod
  pub split : methods ≡ front ++ m ∷ back
  pub named : m.name ≡ name
  pub earlier : Absent name front

find_method-cons :
    (x : ServerMethod) (rest : List ServerMethod) (name : Bytes)
    → find_method (record { methods = x ∷ rest }) name
      ≡ (if bytes_eq x.name name then returns x else find_method (record { methods = rest }) name)
unfolding find_method filter
find_method-cons x rest name = ground arith

pub find_method_first :
    (front back : List ServerMethod) (m : ServerMethod)
    → Absent m.name front
    → find_method (record { methods = front ++ m ∷ back }) m.name ≡ returns m
find_method_first [] back m h = rw (find_method-cons m back m.name, bytes_eq_refl m.name)
find_method_first (x ∷ front) back m (hx, h) =
    rw (find_method-cons x (front ++ m ∷ back) m.name, hx) (find_method_first front back m h)

-- `find_method` returns the first method of the name, or it panics because no method has it; it does
-- nothing else.
pub find_method_cases :
    (methods : List ServerMethod) (name : Bytes)
    → ((m : ServerMethod) × (find_method (record { methods = methods }) name ≡ returns m)
        × FirstNamed methods name m)
      ⊎ ((find_method (record { methods = methods }) name ≡ panics unknown_method)
          × Absent name methods)
unfolding find_method filter
find_method_cases [] name = inr (refl, tt)
find_method_cases (x ∷ rest) name = elim (Bool-cases (bytes_eq x.name name)) [
  | inl e ↦ inl (
    x,
    rw (find_method-cons x rest name, e),
    record {
      front = [];
      back = rest;
      split = refl;
      named = bytes_eq→eq x.name name e;
      earlier = tt;
    },
  )
  | inr e ↦ elim (find_method_cases rest name) [
    | inl (m, found, f) ↦ inl (
      m,
      rw (find_method-cons x rest name, e) found,
      record {
        front = x ∷ f.front;
        back = f.back;
        split = ap (λ (t : List ServerMethod). x ∷ t) f.split;
        named = f.named;
        earlier = (e, f.earlier);
      },
    )
    | inr (missing, absent) ↦ inr (rw (find_method-cons x rest name, e) missing, (e, absent))
  ]
]
