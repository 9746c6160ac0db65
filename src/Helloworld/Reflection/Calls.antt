-- ===== src/Helloworld/Reflection/Calls.antt =====
-- The statics of grpc-examples/src/helloworld.rs under any sequence of calls that use them.
use grpc_rust.Prelude.{◌≡◌, ◌∙◌, refl, List, [], ◌∷◌, ascii, ap, bytes_eq}
use grpc_rust.Outcome.{Outcome, returns, ◌>>=◌}
use grpc_rust.Helloworld.Runtime.{Runtime}
use grpc_rust.Helloworld.Request.{HelloRequest, has_name, get_name}
use grpc_rust.Helloworld.Request.Static as RequestStatic
use grpc_rust.Helloworld.Reply.{HelloReply, has_message, get_message}
use grpc_rust.Helloworld.Reply.Static as ReplyStatic
use grpc_rust.Helloworld.Reflection.File.{request_field, request_type, reply_field, reply_type}
use grpc_rust.Helloworld.Reflection.Wire.{field_named}
use grpc_rust.Helloworld.Reflection.Runtime.{ReflectionRuntime, IsReflection}
use grpc_rust.Helloworld.Reflection.Embedded.{file_descriptor_proto}
use grpc_rust.Helloworld.Reflection.Lazies.{
  Keeps, FileFits, get_lem, file_descriptor_proto_lem, descriptor_lem,
}

module _ (rt : Runtime) (rx : ReflectionRuntime) where
  open rx use {Lazy, FileDescriptorProto, MessageDescriptor}

  -- The five statics.
  pub record Statics : Type 0 where
    pub request_instance : Lazy (HelloRequest rt)
    pub request_descriptor : Lazy MessageDescriptor
    pub reply_instance : Lazy (HelloReply rt)
    pub reply_descriptor : Lazy MessageDescriptor
    pub file_descriptor_proto_lazy : Lazy FileDescriptorProto

  -- The functions that use them.
  pub data Call : Type 0 where
    request_default_instance : Call
    request_descriptor_static : Call
    reply_default_instance : Call
    reply_descriptor_static : Call
    file_descriptor : Call

  unfoldable pub use_static : Call → Statics → Outcome Statics
  use_static request_default_instance s =
      RequestStatic.default_instance rt rx s.request_instance >>= λ r.
      returns (record s { request_instance = r.1 })
  use_static request_descriptor_static s =
      RequestStatic.descriptor_static rt rx s.request_descriptor s.file_descriptor_proto_lazy
      >>= λ r. returns (record s { request_descriptor = r.1; file_descriptor_proto_lazy = r.2 })
  use_static reply_default_instance s = ReplyStatic.default_instance rt rx s.reply_instance >>= λ r.
      returns (record s { reply_instance = r.1 })
  use_static reply_descriptor_static s =
      ReplyStatic.descriptor_static rt rx s.reply_descriptor s.file_descriptor_proto_lazy >>= λ r.
      returns (record s { reply_descriptor = r.1; file_descriptor_proto_lazy = r.2 })
  use_static file_descriptor s = file_descriptor_proto rx s.file_descriptor_proto_lazy >>= λ r.
      returns (record s { file_descriptor_proto_lazy = r.1 })

  unfoldable pub use_all : List Call → Statics → Outcome Statics
  use_all [] s = returns s
  use_all (call ∷ calls) s = use_static call s >>= use_all calls

  module _ (p : IsReflection rx) where
    pub record KeepsAll (s s' : Statics) : Type 0 where
      pub keeps_request_instance : Keeps rx p s.request_instance s'.request_instance
      pub keeps_request_descriptor : Keeps rx p s.request_descriptor s'.request_descriptor
      pub keeps_reply_instance : Keeps rx p s.reply_instance s'.reply_instance
      pub keeps_reply_descriptor : Keeps rx p s.reply_descriptor s'.reply_descriptor
      pub keeps_file : Keeps rx p s.file_descriptor_proto_lazy s'.file_descriptor_proto_lazy

    KeepsAll-refl : (s : Statics) → KeepsAll s s
    KeepsAll-refl s = record {
      keeps_request_instance = λ a h. h;
      keeps_request_descriptor = λ a h. h;
      keeps_reply_instance = λ a h. h;
      keeps_reply_descriptor = λ a h. h;
      keeps_file = λ a h. h;
    }

    KeepsAll-trans : (s s' s'' : Statics) → KeepsAll s s' → KeepsAll s' s'' → KeepsAll s s''
    KeepsAll-trans s s' s'' k k' = record {
      keeps_request_instance = λ a h. k'.keeps_request_instance a (k.keeps_request_instance a h);
      keeps_request_descriptor =
          λ a h. k'.keeps_request_descriptor a (k.keeps_request_descriptor a h);
      keeps_reply_instance = λ a h. k'.keeps_reply_instance a (k.keeps_reply_instance a h);
      keeps_reply_descriptor = λ a h. k'.keeps_reply_descriptor a (k.keeps_reply_descriptor a h);
      keeps_file = λ a h. k'.keeps_file a (k.keeps_file a h);
    }

    abbrev Used : Call → Statics → Type 0
    Used call s =
        (s' : Statics) × (use_static call s ≡ returns s')
        × KeepsAll s s'
        × FileFits rx p s'.file_descriptor_proto_lazy

    use_static_lem :
        (call : Call) (s : Statics) → FileFits rx p s.file_descriptor_proto_lazy → Used call s
    unfolding use_static
    use_static_lem request_default_instance s fits =
        let (a, l, _, got, _, keeps, _) =
          get_lem rx p s.request_instance (RequestStatic.make_instance rt rx) tt tt _ refl in
        (
          record s { request_instance = l },
          unfold RequestStatic.default_instance in rw got refl,
          record {
            keeps_request_instance = keeps;
            keeps_request_descriptor = λ a h. h;
            keeps_reply_instance = λ a h. h;
            keeps_reply_descriptor = λ a h. h;
            keeps_file = λ a h. h;
          },
          fits,
        )
    use_static_lem request_descriptor_static s fits =
        let (md, l, f, got, keeps, fits', keeps_f) =
          descriptor_lem rx p (ascii "HelloRequest")
            (rx.make_singular_string_accessor (ascii "name") (has_name rt) (get_name rt) ∷ [])
            request_type (unfold bytes_eq in refl)
            (
              (
                request_field,
                ap (field_named request_type.fields)
                      (p.named (ascii "name") (has_name rt) (get_name rt))
                    ∙ unfold bytes_eq in refl,
              ),
              tt,
            )
            s.request_descriptor s.file_descriptor_proto_lazy fits in
        (
          record s { request_descriptor = l; file_descriptor_proto_lazy = f },
          unfold RequestStatic.descriptor_static in rw got refl,
          record {
            keeps_request_instance = λ a h. h;
            keeps_request_descriptor = keeps;
            keeps_reply_instance = λ a h. h;
            keeps_reply_descriptor = λ a h. h;
            keeps_file = keeps_f;
          },
          fits',
        )
    use_static_lem reply_default_instance s fits =
        let (a, l, _, got, _, keeps, _) =
          get_lem rx p s.reply_instance (ReplyStatic.make_instance rt rx) tt tt _ refl in
        (
          record s { reply_instance = l },
          unfold ReplyStatic.default_instance in rw got refl,
          record {
            keeps_request_instance = λ a h. h;
            keeps_request_descriptor = λ a h. h;
            keeps_reply_instance = keeps;
            keeps_reply_descriptor = λ a h. h;
            keeps_file = λ a h. h;
          },
          fits,
        )
    use_static_lem reply_descriptor_static s fits =
        let (md, l, f, got, keeps, fits', keeps_f) =
          descriptor_lem rx p (ascii "HelloReply")
            (rx.make_singular_string_accessor (ascii "message") (has_message rt) (get_message rt)
              ∷ [])
            reply_type (unfold bytes_eq in refl)
            (
              (
                reply_field,
                ap (field_named reply_type.fields)
                      (p.named (ascii "message") (has_message rt) (get_message rt))
                    ∙ unfold bytes_eq in refl,
              ),
              tt,
            )
            s.reply_descriptor s.file_descriptor_proto_lazy fits in
        (
          record s { reply_descriptor = l; file_descriptor_proto_lazy = f },
          unfold ReplyStatic.descriptor_static in rw got refl,
          record {
            keeps_request_instance = λ a h. h;
            keeps_request_descriptor = λ a h. h;
            keeps_reply_instance = λ a h. h;
            keeps_reply_descriptor = keeps;
            keeps_file = keeps_f;
          },
          fits',
        )
    use_static_lem file_descriptor s fits =
        let (d, f, got, v, fits', keeps) =
          file_descriptor_proto_lem rx p s.file_descriptor_proto_lazy fits in
        (
          record s { file_descriptor_proto_lazy = f },
          rw got refl,
          record {
            keeps_request_instance = λ a h. h;
            keeps_request_descriptor = λ a h. h;
            keeps_reply_instance = λ a h. h;
            keeps_reply_descriptor = λ a h. h;
            keeps_file = keeps;
          },
          fits',
        )

    -- When the file's static is empty or keeps the descriptor of helloworld.proto, no sequence of calls
    -- of the default instances, the message descriptors and the file descriptor panics. Each static that
    -- has a value before the calls has the same value after them, and the file's is again empty or keeps
    -- the descriptor of helloworld.proto.
    pub use_all-returns :
        (calls : List Call) (s : Statics)
        → FileFits rx p s.file_descriptor_proto_lazy
        → (s' : Statics) × (use_all calls s ≡ returns s')
          × KeepsAll s s'
          × FileFits rx p s'.file_descriptor_proto_lazy
    unfolding use_all
    use_all-returns [] s fits = (s, refl, KeepsAll-refl s, fits)
    use_all-returns (call ∷ calls) s fits =
        let (s1, used, keeps, fits1) = use_static_lem call s fits in
        let (s', rest, keeps', fits') = use_all-returns calls s1 fits1 in
        (s', rw used rest, KeepsAll-trans s s1 s' keeps keeps', fits')
