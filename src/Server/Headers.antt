-- ===== src/Server/Headers.antt =====
-- `GrpcStream::set_headers` (src/server.rs): which method the stream calls.
use grpc_rust.Prelude.{
  ◌≡◌, ◌∙◌, refl, ap, sym, fun_ext, true, false, some, List, [], ◌∷◌, ◌++◌, map, Bytes, All,
  bytes_eq, ascii, bytes_eq_refl, if◌then◌else◌,
}
use grpc_rust.Outcome.{
  returns, panics, unwrap_err, ◌>>=◌, expect, bind_assoc, bind-eq-returns, returns-injective,
}
use grpc_rust.Marshall.{from_utf8}
use grpc_rust.Marshall.Utf8.{is_utf8}
use grpc_rust.Solicit.{Solicit}
use grpc_rust.Server.Stream.{GrpcStream, read_path, set_headers}

module _ (http : Solicit) where
  open http use {Header, header_name, header_value, to_owned}

  abbrev pub IsPath : Header → Type 0
  IsPath h = header_name h ≡ ascii ":path"

  abbrev pub NotPath : Header → Type 0
  NotPath h = bytes_eq (header_name h) (ascii ":path") ≡ false

  read_path-append :
      (front back : List Header) (path : Bytes)
      → read_path http (front ++ back) path ≡ (read_path http front path >>= read_path http back)
  unfolding read_path
  read_path-append [] back path = refl
  read_path-append (h ∷ front) back path =
      ap
        (λ k.
          (if bytes_eq (header_name h) (ascii ":path")
            then expect (from_utf8 (header_value h)) unwrap_err
            else returns path)
          >>= k)
        (fun_ext (read_path-append front back))
      ∙ sym (
          bind_assoc
            (if bytes_eq (header_name h) (ascii ":path")
              then expect (from_utf8 (header_value h)) unwrap_err
              else returns path)
            _ _)

  -- Headers that are set change the path and the headers of the stream.
  pub set_headers-eq :
      (headers : List Header) (s s' : GrpcStream http)
      → set_headers headers s ≡ returns s'
      → (path : Bytes) × (record s { path = path; headers = some (map to_owned headers) } ≡ s')
  unfolding set_headers
  set_headers-eq headers s s' h =
      let (path, _, e) =
        bind-eq-returns (read_path http headers s.path)
          (λ path. returns (record s { path = path; headers = some (map to_owned headers) })) h in
      (path, returns-injective e)

  pub read_path_absent :
      (headers : List Header) (path : Bytes)
      → All NotPath headers
      → read_path http headers path ≡ returns path
  unfolding read_path
  read_path_absent [] path h = refl
  read_path_absent (x ∷ headers) path (hx, h) = rw hx (read_path_absent headers path h)

  IsPath-test : (h : Header) → IsPath h → bytes_eq (header_name h) (ascii ":path") ≡ true
  IsPath-test h p = rw p (bytes_eq_refl (ascii ":path"))

  -- The last `:path` header names the method, if it and those before it are UTF-8; nothing else of
  -- the stream changes but the headers, which are kept in their owned form.
  pub set_headers_last :
      (front back : List Header) (h : Header) (earlier : Bytes) (self : GrpcStream http)
      → read_path http front self.path ≡ returns earlier
      → IsPath h
      → is_utf8 (header_value h) ≡ true
      → All NotPath back
      → set_headers (front ++ h ∷ back) self
        ≡ returns (record self {
          path = header_value h;
          headers = some (map to_owned (front ++ h ∷ back));
        })
  unfolding set_headers from_utf8
  set_headers_last front back h earlier self fine p utf8 none_after =
      rw (read_path-append front (h ∷ back) self.path, fine)
        (rw (IsPath-test h p, utf8) (rw (read_path_absent back (header_value h) none_after)))

  -- Without a `:path` header the stream keeps its path.
  pub set_headers_absent :
      (headers : List Header) (self : GrpcStream http)
      → All NotPath headers
      → set_headers headers self ≡ returns (record self { headers = some (map to_owned headers) })
  unfolding set_headers
  set_headers_absent headers self h = rw (read_path_absent headers self.path h)

  -- A `:path` header that is not UTF-8 ends the connection's thread, wherever it stands behind
  -- headers that are read.
  pub set_headers_panics :
      (front back : List Header) (h : Header) (earlier : Bytes) (self : GrpcStream http)
      → read_path http front self.path ≡ returns earlier
      → IsPath h
      → is_utf8 (header_value h) ≡ false
      → set_headers (front ++ h ∷ back) self ≡ panics unwrap_err
  unfolding set_headers from_utf8
  set_headers_panics front back h earlier self fine p bad =
      rw (read_path-append front (h ∷ back) self.path, fine) (rw (IsPath-test h p, bad))
