-- ===== src/Helloworld/Request/Accessors.antt =====
-- The accessors of `HelloRequest` are those of an optional string.
use grpc_rust.Prelude.{◌≡◌, refl, [], inl, inr, Option-cases, Bytes, Option}
use grpc_rust.Outcome.{Outcome, returns}
use grpc_rust.Helloworld.Runtime.{Runtime}
use grpc_rust.Helloworld.Accessors.{
  IsField, Access, sets, clears, shows_mut, takes, clears_message, Accessors, IsOptional, is_there,
  gives, leaves,
}
use grpc_rust.Helloworld.Request.{
  HelloRequest, clear_name, has_name, set_name, mut_name, take_name, get_name, clear,
}

module _ (rt : Runtime) where
  abbrev access : Access → HelloRequest rt → Outcome (Bytes × HelloRequest rt)
  access (sets v) self = returns ([], set_name rt v self)
  access clears self = returns ([], clear_name rt self)
  access shows_mut self = mut_name rt self
  access takes self = returns (take_name rt self)
  access clears_message self = returns ([], clear rt self)

  abbrev pub accessors : Accessors (HelloRequest rt)
  accessors = record { access = access; has = has_name rt; get = get_name rt }

  module _ (p : IsField rt) where
    is_some_lem : (f : rt.SingularField) → rt.is_some f ≡ is_there (rt.as_ref f)
    is_some_lem f = elim (Option-cases (rt.as_ref f)) [
      | inl e ↦ rw e (p.is_some_none f e)
      | inr (v, e) ↦ rw e (p.is_some_some f v e)
    ]

    abbrev view : HelloRequest rt → Option Bytes
    view m = rt.as_ref m.name

    accessed_lem :
        (a : Access) (m : HelloRequest rt)
        → (m' : HelloRequest rt) × (access a m ≡ returns (gives a (view m), m'))
          × (view m' ≡ leaves a (view m))
    unfolding set_name clear_name mut_name take_name clear
    accessed_lem (sets v) m = (_, refl, p.set v)
    accessed_lem clears m = (_, refl, p.cleared m.name)
    accessed_lem shows_mut m = elim (Option-cases (view m)) [
      | inl e ↦ (
        record m { name = rt.set_default m.name },
        rw (p.is_some_none m.name e, e) (rw (p.defaulted m.name e) refl),
        rw e (p.defaulted m.name e),
      )
      | inr (v, e) ↦ (m, rw (p.is_some_some m.name v e, e) refl, rw e refl)
    ]
    accessed_lem takes m = elim (Option-cases (view m)) [
      | inl e ↦ (
        record m { name = (rt.take_field m.name).1 },
        rw (p.taken m.name, e) refl,
        p.emptied m.name,
      )
      | inr (v, e) ↦ (
        record m { name = (rt.take_field m.name).1 },
        rw (p.taken m.name, e) refl,
        p.emptied m.name,
      )
    ]
    accessed_lem clears_message m = (_, refl, p.cleared m.name)

    pub accessors-IsOptional : IsOptional accessors view
    unfolding has_name get_name
    accessors-IsOptional = record {
      accessed = accessed_lem;
      has_lem = λ m. is_some_lem m.name;
      get_lem = λ m. elim (Option-cases (view m)) [ inl e ↦ rw e refl | inr (v, e) ↦ rw e refl ];
    }
