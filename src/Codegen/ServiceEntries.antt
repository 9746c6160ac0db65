-- ===== src/Codegen/ServiceEntries.antt =====
-- Which entries the code of a whole service holds (src/codegen.rs).
use grpc_rust.Prelude.{◌≡◌, refl, subst, List, [], ◌∷◌, ◌++◌, map, concat, All, append-nil}
use grpc_rust.Codegen.Protobuf.{Write, Protobuf, ◌>>◌}
use grpc_rust.Codegen.Methods.{MethodGen}
use grpc_rust.Codegen.Services
use grpc_rust.Codegen.Services.{ServiceGen}
use grpc_rust.Codegen.Writes.{Entry, Writes, Tracks, Writes-then, Writes-quiet}
use grpc_rust.Codegen.Entries.{
  descriptor_entries, all_descriptors, Resolves, write_sync_client-Writes,
  write_async_client-Writes, write_sync_intf-Writes, write_async_intf-Writes, each_method-Writes,
  register_all-Writes,
}

abbrev client_field : Entry
client_field =
    ("grpc_client", "::std::cell::RefCell::new(::grpc::client::GrpcClient::new(host, port))")

abbrev async_client_field : Entry
async_client_field = ("grpc_client_async", "::grpc::client_async::GrpcClientAsync::new(host, port)")

abbrev server_field : Entry
server_field = ("server", "::grpc::server::GrpcServer::new(service_definition)")

-- All field entries of a service's code, in the order of the text: the two clients and the server
-- have the same descriptors.
abbrev pub service_entries : List MethodGen → List Entry
service_entries methods =
    (client_field ∷ all_descriptors methods)
    ++ ((async_client_field ∷ all_descriptors methods)
        ++ (all_descriptors methods ++ server_field ∷ []))

abbrev no_entries : MethodGen → List Entry
no_entries m = []

nothing_written : (ms : List MethodGen) → concat (map no_entries ms) ≡ []
nothing_written [] = refl
nothing_written (m ∷ ms) = nothing_written ms

module _ (pb : Protobuf) (t : Tracks pb) where
  open t use {
    entries, write_line_writes, comment_writes, field_decl_writes, field_entry_writes,
    pub_fn_writes, block_writes, expr_block_writes, pub_trait_writes, pub_struct_writes,
    impl_self_block_writes, impl_for_block_writes,
  }

  module _ (self : ServiceGen) (resolves : All (Resolves pb) self.methods) where
    intf-Writes :
        (body : MethodGen → Write pb.Writer)
        → ((m : MethodGen) → Resolves pb m → Writes entries (body m) [])
        → Writes entries (Services.each_method pb 0 body self.methods) []
    intf-Writes body h =
        subst (Writes entries (Services.each_method pb 0 body self.methods))
          (nothing_written self.methods)
          (each_method-Writes pb t 0 body no_entries self.methods h resolves)

    sync_intf-Writes : Writes entries (Services.write_sync_intf pb self) []
    unfolding Services.write_sync_intf
    sync_intf-Writes = pub_trait_writes _ _ _ (intf-Writes _ (write_sync_intf-Writes pb t))

    async_intf-Writes : Writes entries (Services.write_async_intf pb self) []
    unfolding Services.write_async_intf
    async_intf-Writes = pub_trait_writes _ _ _ (intf-Writes _ (write_async_intf-Writes pb t))

    sync_client-Writes :
        Writes entries
          (Services.write_sync_client pb self)
          (client_field ∷ all_descriptors self.methods)
    unfolding Services.write_sync_client
    sync_client-Writes = Writes-quiet (pub_struct_writes _ _ _ (field_decl_writes _ _)) (
        Writes-quiet (write_line_writes _) (
          Writes-then
            (impl_self_block_writes _ _ _
              (pub_fn_writes _ _ _ (expr_block_writes _ _ _ (field_entry_writes _ _))))
            (Writes-quiet (write_line_writes _) (
              impl_for_block_writes _ _ _ _ (
                each_method-Writes pb t 0 _ descriptor_entries self.methods
                  (write_sync_client-Writes pb t) resolves)))))

    async_client-Writes :
        Writes entries
          (Services.write_async_client pb self)
          (async_client_field ∷ all_descriptors self.methods)
    unfolding Services.write_async_client
    async_client-Writes = Writes-quiet (pub_struct_writes _ _ _ (field_decl_writes _ _)) (
        Writes-quiet (write_line_writes _) (
          Writes-then
            (impl_self_block_writes _ _ _
              (pub_fn_writes _ _ _ (expr_block_writes _ _ _ (field_entry_writes _ _))))
            (Writes-quiet (write_line_writes _) (
              impl_for_block_writes _ _ _ _ (
                each_method-Writes pb t 0 _ descriptor_entries self.methods
                  (write_async_client-Writes pb t) resolves)))))

    server-Writes :
        Writes entries
          (Services.write_server pb self)
          (all_descriptors self.methods ++ server_field ∷ [])
    unfolding Services.write_server
    server-Writes = Writes-quiet (pub_struct_writes _ _ _ (field_decl_writes _ _)) (
        Writes-quiet (write_line_writes _) (
          impl_self_block_writes _ _ _ (
            subst (Writes entries _) (append-nil _) (
              Writes-then
                (pub_fn_writes _ _ _ (
                  Writes-quiet (write_line_writes _) (
                    Writes-then
                      (block_writes _ _ _ _
                        (block_writes _ _ _ _ (register_all-Writes pb t self.methods)))
                      (expr_block_writes _ _ _ (field_entry_writes _ _)))))
                (Writes-quiet (write_line_writes _) (pub_fn_writes _ _ _ (write_line_writes _)))))))

    clients_and_server :
        Writes entries
          (do
            Services.write_sync_client pb self
            pb.write_line ""
            pb.comment "async client"
            pb.write_line ""
            Services.write_async_client pb self
            pb.write_line ""
            pb.comment "sync server"
            pb.write_line ""
            Services.write_server pb self)
          (service_entries self.methods)
    clients_and_server = Writes-then sync_client-Writes (
        Writes-quiet (write_line_writes _) (
          Writes-quiet (comment_writes _) (
            Writes-quiet (write_line_writes _) (
              Writes-then async_client-Writes (
                Writes-quiet (write_line_writes _) (
                  Writes-quiet (comment_writes _)
                    (Writes-quiet (write_line_writes _) server-Writes)))))))

    -- The code of a service whose message types are all found is written without a panic, over a code
    -- writer that tracks its field entries; and the sync client, the async client and the server get
    -- the same method descriptors, each with the method's path as a string literal, its streaming flags
    -- and the protobuf marshallers.
    pub write-Writes : Writes entries (Services.write pb self) (service_entries self.methods)
    unfolding Services.write
    write-Writes = Writes-quiet (comment_writes _) (
        Writes-quiet (write_line_writes _) (
          Writes-quiet sync_intf-Writes (
            Writes-quiet (write_line_writes _) (
              Writes-quiet async_intf-Writes (
                Writes-quiet (write_line_writes _) (
                  Writes-quiet (comment_writes _)
                    (Writes-quiet (write_line_writes _) clients_and_server)))))))
