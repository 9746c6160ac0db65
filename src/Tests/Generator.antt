-- ===== src/Tests/Generator.antt =====
-- The theorems on the generator at concrete inputs.
use Prim.Native.String.{count}
use mathlib.Core.Logic.{◌↔◌}
use grpc_rust.Prelude.{◌≡◌, ◌≢◌, refl, List, [], ◌∷◌, ◌++◌, map, String, ascii, ap, arith}
use grpc_rust.Outcome.{returns, panics, no_entry}
use grpc_rust.Codegen.Methods.{MethodGen, method_path}
use grpc_rust.Codegen.Services
use grpc_rust.Codegen.Services.{ServiceGen, service_gen}
use grpc_rust.Codegen.Files.{GenResult, lookup_file, gen}
use grpc_rust.Codegen.Writes.{Writes}
use grpc_rust.Codegen.Entries.{Resolves}
use grpc_rust.Codegen.ServiceEntries.{service_entries, write-Writes}
use grpc_rust.Codegen.Missing.{gen_missing}
use grpc_rust.Codegen.Gen.{IsRequestable, generated_names, gen_names}
use grpc_rust.Codegen.Paths.{grpc_path, method_path-grpc_path}
use grpc_rust.Codegen.Distinct.{IsNamed, occurs_in-Avoids, method_path-injective}
use grpc_rust.Codegen.Registered.{served_method, handle_method-generated}
use grpc_rust.Method.{handle_method}
use grpc_rust.Codegen.Protobuf.{MethodDescriptorProto, ServiceDescriptorProto}
use grpc_rust.Tests.Printing.{
  Printer, printing, printing_tracks, say_hello, greeter, helloworld, messages_only,
}

abbrev say_hello_gen : MethodGen
say_hello_gen = record {
  proto = say_hello;
  service_path = "/helloworld.Greeter";
  root_scope = helloworld ∷ messages_only ∷ [];
}

abbrev greeter_gen : ServiceGen
greeter_gen = record {
  proto = greeter;
  root_scope = helloworld ∷ messages_only ∷ [];
  methods = say_hello_gen ∷ [];
  service_path = "/helloworld.Greeter";
  package_name = "helloworld";
}

say_hello-Resolves : Resolves printing say_hello_gen
say_hello-Resolves = record {
  input_name = "helloworld::HelloRequest";
  output_name = "helloworld::HelloReply";
  input_found = refl;
  output_found = refl;
}

write-Writes_example :
    Writes
      (λ (w : Printer). w.fields)
      (Services.write printing greeter_gen)
      (service_entries (say_hello_gen ∷ []))
write-Writes_example = write-Writes printing printing_tracks greeter_gen (say_hello-Resolves, tt)

helloworld-IsRequestable : IsRequestable printing (helloworld ∷ messages_only ∷ []) helloworld
unfolding service_gen lookup_file
helloworld-IsRequestable = record { found = refl; resolves = ((say_hello-Resolves, tt), tt) }

messages-IsRequestable : IsRequestable printing (helloworld ∷ messages_only ∷ []) messages_only
unfolding lookup_file
messages-IsRequestable = record { found = refl; resolves = tt }

gen_names_example :
    (results : List GenResult) × (gen printing
        (helloworld ∷ messages_only ∷ [])
        ("messages.proto" ∷ "helloworld.proto" ∷ [])
      ≡ returns results)
    × (map (λ (r : GenResult). r.name) results
        ≡ generated_names printing (messages_only ∷ helloworld ∷ []))
gen_names_example =
    gen_names printing printing_tracks (helloworld ∷ messages_only ∷ [])
      (messages_only ∷ helloworld ∷ []) (messages-IsRequestable, (helloworld-IsRequestable, tt))

generated_name :
    generated_names printing (messages_only ∷ helloworld ∷ []) ≡ "helloworld_grpc.rs" ∷ []
generated_name = refl

method_path-grpc_path_example :
    (method_path (record {
      proto = say_hello;
      service_path = (service_gen greeter helloworld []).service_path;
      root_scope = [];
    })
      ≡ grpc_path "helloworld" "Greeter" "SayHello")
    ↔ (◌≢◌ {A = String} "helloworld" "")
method_path-grpc_path_example = method_path-grpc_path say_hello greeter helloworld []

helloworld-IsNamed : IsNamed helloworld greeter
helloworld-IsNamed = record {
  package_slash = occurs_in-Avoids "/" "helloworld" refl;
  service_slash = occurs_in-Avoids "/" "Greeter" refl;
  service_dot = occurs_in-Avoids "." "Greeter" refl;
}

method_path-injective_example :
    (method_path (record {
      proto = say_hello;
      service_path = (service_gen greeter helloworld []).service_path;
      root_scope = [];
    })
      ≡ method_path (record {
        proto = record say_hello { name = "SayHelloAgain" };
        service_path = (service_gen greeter helloworld []).service_path;
        root_scope = [];
      }))
    ↔ ((◌≡◌ {A = String} "helloworld" "helloworld")
        × (◌≡◌ {A = String} "Greeter" "Greeter")
        × (◌≡◌ {A = String} "SayHello" "SayHelloAgain"))
method_path-injective_example =
    method_path-injective say_hello (record say_hello { name = "SayHelloAgain" }) greeter greeter
      helloworld helloworld [] helloworld-IsNamed helloworld-IsNamed

-- A service with a second method, which another handler serves.
abbrev say_goodbye : MethodDescriptorProto
say_goodbye = record say_hello { name = "SayGoodbye" }

abbrev polite : ServiceDescriptorProto
polite = record greeter { methods = say_hello ∷ say_goodbye ∷ [] }

abbrev goodbye_gen : MethodGen
goodbye_gen = record say_hello_gen { proto = say_goodbye }

handle_method-generated_example :
    handle_method
      (record {
        methods = map served_method (
            (say_hello_gen, λ m. returns (ascii "hello " ++ m))
            ∷ (goodbye_gen, λ m. returns (ascii "bye " ++ m))
            ∷ []);
      })
      (ascii (method_path goodbye_gen))
      (ascii "you")
    ≡ returns (ascii "bye you")
handle_method-generated_example =
    handle_method-generated polite helloworld (helloworld ∷ messages_only ∷ [])
      ((say_hello_gen, λ m. returns (ascii "hello " ++ m)) ∷ []) [] goodbye_gen
      (λ m. returns (ascii "bye " ++ m)) (ascii "you") (unfold service_gen in refl)
      ((λ e. omega (arith, ap count e)), tt)

-- A file with no package gives a path that no gRPC server knows.
unpackaged_path :
    method_path (record {
      proto = say_hello;
      service_path =
          (service_gen greeter (record helloworld { package_name = "" }) []).service_path;
      root_scope = [];
    })
    ≡ "/.Greeter/SayHello"
unfolding service_gen
unpackaged_path = refl

gen_missing_example :
    gen printing (helloworld ∷ messages_only ∷ []) ("helloworld.proto" ∷ "route_guide.proto" ∷ [])
    ≡ panics no_entry
gen_missing_example =
    gen_missing printing printing_tracks (helloworld ∷ messages_only ∷ []) (helloworld ∷ [])
      "route_guide.proto" [] (helloworld-IsRequestable, tt) (unfold lookup_file in refl)
