-- ===== src/Xreality/Parse/Record.antt =====
-- A whole record: the headers and the fields in front of the extensions.
use obfs.Base.{
  ℕ, zero, suc, subst, ◌+◌, ◌*◌, ◌/◌, ◌%◌, ◌≤◌, ◌<◌, ◌≡◌, refl, List, [], ◌∷◌, ◌++◌, map, arith,
  length, ltb, le→ltb,
}
use obfs.Base.{Outcome, ok, All, put_uint16, join16-put}
use obfs.Base.{
  slice_to, slice-append, slice_from-append, slice_to-append, length-append, false, append-nil,
  append_assoc,
}
use obfs.Hello.{
  Extension, ClientHello, vector8, vector16, extension_bytes, concat_map, length-extension_bytes,
  hello_body, handshake_bytes, record_bytes, IsExtension, IsClientHello,
}
use obfs.Xreality.Parse.{
  ClientHelloInfo, info_round, info_loop, info_extensions, or_bad, hello_fields, handshake_of,
  record_of, parse_client_hello,
}
use obfs.Xreality.Parse.Finds.{
  Content, content_extension, IsContent, noted, described, take8-vector, take16-vector,
  on_extension-noted,
}

abbrev pub contents_bytes : List Content → List ℕ
contents_bytes cs = concat_map extension_bytes (map content_extension cs)

info_round-bytes :
    (again : ClientHelloInfo → List ℕ → Outcome ClientHelloInfo) (info : ClientHelloInfo)
    (c : Content) (rest : List ℕ)
    → IsExtension (content_extension c)
    → IsContent c
    → info_round again info (extension_bytes (content_extension c) ++ rest)
      ≡ again (noted c info) rest
unfolding info_round extension_bytes
info_round-bytes again info c rest v w =
    let x : Extension = content_extension c in
    let n : ℕ = length x.body in
    let fits : ltb (length (x.body ++ rest)) n ≡ false =
      le→ltb _ _ (omega (arith, length-append x.body rest)) in
    rw (
      join16-put x.kind v.0,
      join16-put n v.1,
      slice_from-append (put_uint16 x.kind ++ put_uint16 n) (x.body ++ rest) 4 refl,
      fits,
      slice_to-append x.body rest n refl,
      slice_from-append x.body rest n refl,
      on_extension-noted c info w,
    )

info_loop-described :
    (fuel : ℕ) (info : ClientHelloInfo) (cs : List Content)
    → All IsExtension (map content_extension cs)
    → All IsContent cs
    → length (contents_bytes cs) < fuel
    → info_loop fuel info (contents_bytes cs) ≡ ok (described cs info)
unfolding info_loop described
info_loop-described zero info cs v w h = absurd (omega arith)
info_loop-described (suc fuel) info [] v w h = refl
info_loop-described (suc fuel) info (c ∷ cs) v w h =
    let rest : List ℕ = contents_bytes cs in
    let size = length-extension_bytes (content_extension c) rest in
    let long : ltb (length (extension_bytes (content_extension c) ++ rest)) 4 ≡ false =
      le→ltb _ _ (omega arith) in
    rw (long, info_round-bytes (info_loop fuel) info c rest v.0 w.0)
      (info_loop-described fuel (noted c info) cs v.1 w.1 (omega arith))

info_extensions-described :
    (info : ClientHelloInfo) (cs : List Content)
    → All IsExtension (map content_extension cs)
    → All IsContent cs
    → length (contents_bytes cs) < 65536
    → info_extensions info (vector16 (contents_bytes cs)) ≡ ok (described cs info)
unfolding info_extensions
info_extensions-described info cs v w h =
    let bs : List ℕ = contents_bytes cs in
    let n : ℕ = length bs in
    let two : ltb (length (vector16 bs)) 2 ≡ false = le→ltb _ _ (omega arith) in
    let fits : ltb n n ≡ false = le→ltb _ _ (omega arith) in
    let whole : slice_to bs n ≡ ok bs = rw append-nil at (slice_to-append bs [] n refl) in
    rw (two, join16-put n h, slice_from-append (put_uint16 n) bs 2 refl, fits, whole)
      (info_loop-described (suc n) info cs v w (omega arith))

-- What ParseClientHello should say of a message with these contents.
abbrev pub info_of : ClientHello → List Content → ClientHelloInfo
info_of h cs =
    described cs
      (record { random = h.random; session_id = h.session_id; server_name = []; x25519 = [] })

hello_fields-info :
    (h : ClientHello) (cs : List Content)
    → h.extensions ≡ map content_extension cs
    → IsClientHello h
    → All IsContent cs
    → hello_fields (hello_body h) ≡ ok (info_of h cs)
unfolding hello_fields hello_body or_bad
hello_fields-info h cs e v w =
    let exts : List ℕ = vector16 (concat_map extension_bytes h.extensions) in
    let comp : List ℕ = vector8 h.compression ++ exts in
    let suites : List ℕ = vector16 h.cipher_suites ++ comp in
    let fields : List ℕ = vector8 h.session_id ++ suites in
    let size = length-append (h.version ++ h.random) fields in
    let fixed : length (h.version ++ h.random) ≡ 34 =
      omega (arith, length-append h.version h.random, v.version_size, v.random_size) in
    let long : ltb (length ((h.version ++ h.random) ++ fields)) 34 ≡ false =
      le→ltb _ _ (omega arith) in
    let valid : All IsExtension (map content_extension cs) =
      subst (λ xs. All IsExtension xs) e v.extensions_valid in
    let small : length (contents_bytes cs) < 65536 =
      subst (λ xs. length (concat_map extension_bytes xs) < 65536) e v.extensions_size in
    rw
      (
        ← append_assoc h.version h.random fields,
        long,
        slice-append h.version h.random fields 2 34 v.version_size (omega arith),
        slice_from-append (h.version ++ h.random) fields 34 fixed,
        take8-vector h.session_id suites,
        take16-vector h.cipher_suites comp v.suites_size,
        take8-vector h.compression exts,
        e,
      )
      (info_extensions-described _ cs valid w small)

handshake_of-info :
    (h : ClientHello) (cs : List Content)
    → h.extensions ≡ map content_extension cs
    → IsClientHello h
    → All IsContent cs
    → handshake_of (handshake_bytes h) ≡ ok (info_of h cs)
unfolding handshake_of handshake_bytes
handshake_of-info h cs e v w =
    let n : ℕ = length (hello_body h) in
    let header : List ℕ = 0x01 ∷ (n / 65536) ∷ (n / 256 % 256) ∷ (n % 256) ∷ [] in
    let size : (n / 65536) * 65536 + (n / 256 % 256) * 256 + n % 256 ≡ n = omega arith in
    let fits : ltb n n ≡ false = le→ltb _ _ (omega arith) in
    let whole : slice_to (hello_body h) n ≡ ok (hello_body h) =
      rw append-nil at (slice_to-append (hello_body h) [] n refl) in
    rw (slice_from-append header (hello_body h) 4 refl, size, fits, whole)
      (hello_fields-info h cs e v w)

pub handshake_bytes_four : (h : ClientHello) → 4 ≤ length (handshake_bytes h)
unfolding handshake_bytes
handshake_bytes_four h = omega arith

-- Whatever stands behind a record that holds a well-formed ClientHello, ParseClientHello returns
-- the message's random and session ID, the host name of its last server_name extension and the
-- X25519 share of its last key_share extension.
pub parse_client_hello-info :
    (major minor : ℕ) (h : ClientHello) (cs : List Content) (rest : List ℕ)
    → h.extensions ≡ map content_extension cs
    → IsClientHello h
    → All IsContent cs
    → length (handshake_bytes h) < 65536
    → parse_client_hello (record_bytes major minor h ++ rest) ≡ ok (info_of h cs)
unfolding parse_client_hello record_of record_bytes
parse_client_hello-info major minor h cs rest e v w small =
    let hs : List ℕ = handshake_bytes h in
    let n : ℕ = length hs in
    let header : List ℕ = 0x16 ∷ major ∷ minor ∷ put_uint16 n in
    let total = length-append hs rest in
    let five : ltb (length ((header ++ hs) ++ rest)) 5 ≡ false = le→ltb _ _ (omega arith) in
    let four : ltb n 4 ≡ false = le→ltb _ _ (handshake_bytes_four h) in
    let room : ltb (length ((header ++ hs) ++ rest)) (5 + n) ≡ false = le→ltb _ _ (omega arith) in
    rw (five, join16-put n small, four, room, slice-append header hs rest 5 (5 + n) refl refl)
      (handshake_of-info h cs e v w)
