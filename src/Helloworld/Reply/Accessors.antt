-- ===== src/Helloworld/Reply/Accessors.antt =====
-- The accessors of `HelloReply` are those of an optional string.
use grpc_rust.Prelude.{◌≡◌, refl, [], inl, inr, Option-cases, Bytes, Option}
use grpc_rust.Outcome.{Outcome, returns}
use grpc_rust.Helloworld.Runtime.{Runtime}
use grpc_rust.Helloworld.Accessors.{
  IsField, Access, sets, clears, shows_mut, takes, clears_message, Accessors, IsOptional, is_there,
  gives, leaves,
}
use grpc_rust.Helloworld.Reply.{
  HelloReply, clear_message, has_message, set_message, mut_message, take_message, get_message,
  clear,
}

module _ (rt : Runtime) where
  abbrev access : Access → HelloReply rt → Outcome (Bytes × HelloReply rt)
  access (sets v) self = returns ([], set_message rt v self)
  access clears self = returns ([], clear_message rt self)
  access shows_mut self = mut_message rt self
  access takes self = returns (take_message rt self)
  access clears_message self = returns ([], clear rt self)

  abbrev pub accessors : Accessors (HelloReply rt)
  accessors = record { access = access; has = has_message rt; get = get_message rt }

  module _ (p : IsField rt) where
    is_some_lem : (f : rt.SingularField) → rt.is_some f ≡ is_there (rt.as_ref f)
    is_some_lem f = elim (Option-cases (rt.as_ref f)) [
      | inl e ↦ rw e (p.is_some_none f e)
      | inr (v, e) ↦ rw e (p.is_some_some f v e)
    ]

    abbrev view : HelloReply rt → Option Bytes
    view m = rt.as_ref m.message

    accessed_lem :
        (a : Access) (m : HelloReply rt)
        → (m' : HelloReply rt) × (access a m ≡ returns (gives a (view m), m'))
          × (view m' ≡ leaves a (view m))
    unfolding set_message clear_message mut_message take_message clear
    accessed_lem (sets v) m = (_, refl, p.set v)
    accessed_lem clears m = (_, refl, p.cleared m.message)
    accessed_lem shows_mut m = elim (Option-cases (view m)) [
      | inl e ↦ (
        record m { message = rt.set_default m.message },
        rw (p.is_some_none m.message e, e) (rw (p.defaulted m.message e) refl),
        rw e (p.defaulted m.message e),
      )
      | inr (v, e) ↦ (m, rw (p.is_some_some m.message v e, e) refl, rw e refl)
    ]
    accessed_lem takes m = elim (Option-cases (view m)) [
      | inl e ↦ (
        record m { message = (rt.take_field m.message).1 },
        rw (p.taken m.message, e) refl,
        p.emptied m.message,
      )
      | inr (v, e) ↦ (
        record m { message = (rt.take_field m.message).1 },
        rw (p.taken m.message, e) refl,
        p.emptied m.message,
      )
    ]
    accessed_lem clears_message m = (_, refl, p.cleared m.message)

    pub accessors-IsOptional : IsOptional accessors view
    unfolding has_message get_message
    accessors-IsOptional = record {
      accessed = accessed_lem;
      has_lem = λ m. is_some_lem m.message;
      get_lem = λ m. elim (Option-cases (view m)) [ inl e ↦ rw e refl | inr (v, e) ↦ rw e refl ];
    }
