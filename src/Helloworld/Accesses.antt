-- ===== src/Helloworld/Accesses.antt =====
-- The accessors of both messages of grpc-examples/src/helloworld.rs.
use grpc_rust.Prelude.{◌≡◌, List}
use grpc_rust.Outcome.{returns}
use grpc_rust.Helloworld.Runtime.{Runtime}
use grpc_rust.Helloworld.Request.{HelloRequest}
use grpc_rust.Helloworld.Request.Accessors as RequestAccessors
use grpc_rust.Helloworld.Reply.{HelloReply}
use grpc_rust.Helloworld.Reply.Accessors as ReplyAccessors
use grpc_rust.Helloworld.Accessors.{IsField, Access, access_all, expected, access_all-expected}

-- Over fields that behave as documented, any sequence of calls of the accessors of a HelloRequest or
-- of a HelloReply returns, so the unwrap of `mut_name` and `mut_message` never panics. Every call gives
-- what it gives on the optional string that the message shows before it, and the `has` and `get`
-- accessors then say what that string has become.
pub accesses_refine :
    (rt : Runtime) (p : IsField rt) (accesses : List Access) (request : HelloRequest rt)
    (reply : HelloReply rt)
    → (access_all (RequestAccessors.accessors rt) accesses request
        ≡ returns (expected accesses (rt.as_ref request.name)))
      × (access_all (ReplyAccessors.accessors rt) accesses reply
          ≡ returns (expected accesses (rt.as_ref reply.message)))
accesses_refine rt p accesses request reply = (
  access_all-expected (RequestAccessors.accessors-IsOptional rt p) accesses request,
  access_all-expected (ReplyAccessors.accessors-IsOptional rt p) accesses reply,
)
