-- ===== src/Reality/Sni/Finds.antt =====
-- The parser on well-formed messages: it walks to the first server_name extension.
use obfs.Base.{
  ℕ, zero, suc, ◌/◌, ◌%◌, ◌<◌, ◌≡◌, refl, List, [], ◌∷◌, ◌++◌, arith, length, ltb, le→ltb, ◌==◌,
}
use obfs.Base.{Outcome, ok, if◌then◌else◌, All, put_uint16, join16-put}
use obfs.Base.{
  slice_to, slice_from-append, slice_to-append, length-append, false, append-nil, append_assoc,
}
use obfs.Hello.{
  first_host, Extension, ServerName, ClientHello, vector8, vector16, extension_bytes, name_bytes,
  concat_map, length-extension_bytes, length-name_bytes, hello_body, handshake_bytes, IsExtension,
  IsServerName, IsClientHello,
}
use obfs.Reality.Sni.{
  name_round, name_loop, sni_from_extension, skip_field, extension_round, extension_loop,
  extensions_of, behind_header, sni_from_client_hello,
}

-- What the message says: the first extension of type 0.
pub first_sni : List Extension → Outcome (List ℕ)
first_sni [] = ok []
first_sni (x ∷ xs) = if x.kind == 0 then sni_from_extension x.body else first_sni xs

extension_round-bytes :
    (again : List ℕ → Outcome (List ℕ)) (x : Extension) (rest : List ℕ)
    → IsExtension x
    → extension_round again (extension_bytes x ++ rest)
      ≡ (if x.kind == 0 then sni_from_extension x.body else again rest)
unfolding extension_round extension_bytes
extension_round-bytes again x rest v =
    let n : ℕ = length x.body in
    let head : List ℕ = (x.kind / 256 % 256) ∷ (x.kind % 256) ∷ (n / 256 % 256) ∷ (n % 256) ∷ [] in
    let fits : ltb (length (x.body ++ rest)) n ≡ false =
      le→ltb _ _ (omega (arith, length-append x.body rest)) in
    rw (
      join16-put x.kind v.0,
      join16-put n v.1,
      slice_from-append head (x.body ++ rest) 4 refl,
      fits,
      slice_to-append x.body rest n refl,
      slice_from-append x.body rest n refl,
    )

extension_loop-first :
    (fuel : ℕ) (xs : List Extension)
    → All IsExtension xs
    → length (concat_map extension_bytes xs) < fuel
    → extension_loop fuel (concat_map extension_bytes xs) ≡ first_sni xs
unfolding extension_loop first_sni
extension_loop-first zero xs v h = absurd (omega arith)
extension_loop-first (suc fuel) [] v h = refl
extension_loop-first (suc fuel) (x ∷ xs) v h =
    let rest = concat_map extension_bytes xs in
    let size = length-extension_bytes x rest in
    let long : ltb (length (extension_bytes x ++ rest)) 4 ≡ false = le→ltb _ _ (omega arith) in
    rw (
      long,
      extension_round-bytes (extension_loop fuel) x rest v.0,
      extension_loop-first fuel xs v.1 (omega arith),
    )

skip_one : (bs rest : List ℕ) → skip_field 1 (vector8 bs ++ rest) ≡ ok rest
unfolding skip_field
skip_one bs rest =
    let fits : ltb (length (bs ++ rest)) (length bs) ≡ false =
      le→ltb _ _ (omega (arith, length-append bs rest)) in
    let one : ltb (length (vector8 bs ++ rest)) 1 ≡ false = le→ltb _ _ (omega arith) in
    rw (
      one,
      slice_from-append (length bs ∷ []) (bs ++ rest) 1 refl,
      fits,
      slice_from-append bs rest (length bs) refl,
    )

skip_two : (bs rest : List ℕ) → length bs < 65536 → skip_field 2 (vector16 bs ++ rest) ≡ ok rest
unfolding skip_field
skip_two bs rest h =
    let n : ℕ = length bs in
    let fits : ltb (length (bs ++ rest)) n ≡ false =
      le→ltb _ _ (omega (arith, length-append bs rest)) in
    let two : ltb (length (vector16 bs ++ rest)) 2 ≡ false = le→ltb _ _ (omega arith) in
    rw (
      two,
      join16-put n h,
      slice_from-append (put_uint16 n) (bs ++ rest) 2 refl,
      fits,
      slice_from-append bs rest n refl,
    )

extensions_of-first :
    (xs : List Extension)
    → All IsExtension xs
    → length (concat_map extension_bytes xs) < 65536
    → extensions_of (vector16 (concat_map extension_bytes xs)) ≡ first_sni xs
unfolding extensions_of
extensions_of-first xs v h =
    let bs : List ℕ = concat_map extension_bytes xs in
    let n : ℕ = length bs in
    let two : ltb (length (vector16 bs)) 2 ≡ false = le→ltb _ _ (omega arith) in
    let fits : ltb n n ≡ false = le→ltb _ _ (omega arith) in
    let whole : slice_to bs n ≡ ok bs = rw append-nil at (slice_to-append bs [] n refl) in
    rw (two, join16-put n h, slice_from-append (put_uint16 n) bs 2 refl, fits, whole)
      (extension_loop-first (suc n) xs v (omega arith))

behind_header-first :
    (a b c d : ℕ) (h : ClientHello)
    → IsClientHello h
    → behind_header (a ∷ b ∷ c ∷ d ∷ hello_body h) ≡ first_sni h.extensions
unfolding behind_header hello_body
behind_header-first a b c d h v =
    let exts : List ℕ = vector16 (concat_map extension_bytes h.extensions) in
    let comp : List ℕ = vector8 h.compression ++ exts in
    let suites : List ℕ = vector16 h.cipher_suites ++ comp in
    let fields : List ℕ = vector8 h.session_id ++ suites in
    let size = length-append (h.version ++ h.random) fields in
    let fixed : length (h.version ++ h.random) ≡ 34 =
      omega (arith, length-append h.version h.random, v.version_size, v.random_size) in
    let long : ltb (length ((h.version ++ h.random) ++ fields)) 34 ≡ false =
      le→ltb _ _ (omega arith) in
    rw
      (
        slice_from-append (a ∷ b ∷ c ∷ d ∷ []) (h.version ++ (h.random ++ fields)) 4 refl,
        ← append_assoc,
        long,
      )
      (rw
        (
          slice_from-append (h.version ++ h.random) fields 34 fixed,
          skip_one h.session_id suites,
          skip_two h.cipher_suites comp v.suites_size,
          skip_one h.compression exts,
        )
        (extensions_of-first h.extensions v.extensions_valid v.extensions_size))

-- On a well-formed ClientHello the parser answers for its first server_name extension, and with no
-- SNI if there is none.
pub sni_from_client_hello-first :
    (h : ClientHello)
    → IsClientHello h
    → sni_from_client_hello (handshake_bytes h) ≡ first_sni h.extensions
unfolding sni_from_client_hello handshake_bytes
sni_from_client_hello-first h v =
    let n : ℕ = length (hello_body h) in
    let long : ltb (length (0x01 ∷ (n / 65536) ∷ (n / 256 % 256) ∷ (n % 256) ∷ hello_body h)) 4
        ≡ false =
      le→ltb _ _ (omega arith) in
    rw long (behind_header-first 0x01 (n / 65536) (n / 256 % 256) (n % 256) h v)

name_round-bytes :
    (again : List ℕ → Outcome (List ℕ)) (x : ServerName) (rest : List ℕ)
    → IsServerName x
    → name_round again (name_bytes x ++ rest) ≡ (if x.name_type == 0 then ok x.name else again rest)
unfolding name_round name_bytes
name_round-bytes again x rest v =
    let n : ℕ = length x.name in
    let head : List ℕ = x.name_type ∷ (n / 256 % 256) ∷ (n % 256) ∷ [] in
    let fits : ltb (length (x.name ++ rest)) n ≡ false =
      le→ltb _ _ (omega (arith, length-append x.name rest)) in
    rw (
      join16-put n v,
      slice_from-append head (x.name ++ rest) 3 refl,
      fits,
      slice_to-append x.name rest n refl,
      slice_from-append x.name rest n refl,
    )

name_loop-first :
    (fuel : ℕ) (ns : List ServerName)
    → All IsServerName ns
    → length (concat_map name_bytes ns) < fuel
    → name_loop fuel (concat_map name_bytes ns) ≡ ok (first_host ns)
unfolding name_loop first_host
name_loop-first zero ns v h = absurd (omega arith)
name_loop-first (suc fuel) [] v h = refl
name_loop-first (suc fuel) (x ∷ ns) v h =
    let rest : List ℕ = concat_map name_bytes ns in
    let size = length-name_bytes x rest in
    let long : ltb (length (name_bytes x ++ rest)) 3 ≡ false = le→ltb _ _ (omega arith) in
    rw
      (
        long,
        name_round-bytes (name_loop fuel) x rest v.0,
        name_loop-first fuel ns v.1 (omega arith),
      )
      (ground arith)

-- On a well-formed name list the parser of the extension returns its first host name.
pub sni_from_extension-first :
    (ns : List ServerName)
    → All IsServerName ns
    → length (concat_map name_bytes ns) < 65536
    → sni_from_extension (vector16 (concat_map name_bytes ns)) ≡ ok (first_host ns)
unfolding sni_from_extension
sni_from_extension-first ns v h =
    let bs : List ℕ = concat_map name_bytes ns in
    let n : ℕ = length bs in
    let two : ltb (length (vector16 bs)) 2 ≡ false = le→ltb _ _ (omega arith) in
    let fits : ltb n n ≡ false = le→ltb _ _ (omega arith) in
    let whole : slice_to bs n ≡ ok bs = rw append-nil at (slice_to-append bs [] n refl) in
    rw (two, join16-put n h, slice_from-append (put_uint16 n) bs 2 refl, fits, whole)
      (name_loop-first (suc n) ns v (omega arith))
