-- ===== src/Xreality/Parse/Finds.antt =====
-- The parser on well-formed records: it returns what the message says.
use obfs.Base.{
  ℕ, zero, suc, ◌+◌, ◌<◌, ◌≡◌, ◌≢◌, refl, List, [], ◌∷◌, ◌++◌, arith, length, ltb, le→ltb, ◌==◌,
  ◌&&◌,
}
use obfs.Base.{Outcome, ok, some, if◌then◌else◌, All, put_uint16, join16-put}
use obfs.Base.{slice-append, slice_from-append, slice_to-append, length-append, false, append-nil}
use obfs.Hello.{
  Extension, ServerName, KeyShare, vector8, vector16, name_bytes, share_bytes, concat_map,
  first_host, first_x25519, length-name_bytes, length-share_bytes, IsServerName, IsKeyShare,
}
use obfs.Xreality.Parse.{
  ClientHelloInfo, take8, take16, sni_round, sni_loop, sni_of, parse_sni, share_round, share_loop,
  share_of, parse_key_share_x25519, on_extension,
}

-- An extension, by what it means to the parser.
pub data Content : Type 0 where
  server_names : List ServerName → Content
  key_shares : List KeyShare → Content
  unread : ℕ → List ℕ → Content

unfoldable pub content_extension : Content → Extension
content_extension (server_names ns) = record {
  kind = 0x0000;
  body = vector16 (concat_map name_bytes ns);
}
content_extension (key_shares ks) = record {
  kind = 0x0033;
  body = vector16 (concat_map share_bytes ks);
}
content_extension (unread kind body) = record { kind = kind; body = body }

abbrev pub IsContent : Content → Type 0
IsContent (server_names ns) = All IsServerName ns × (length (concat_map name_bytes ns) < 65536)
IsContent (key_shares ks) = All IsKeyShare ks × (length (concat_map share_bytes ks) < 65536)
IsContent (unread kind body) = (kind ≢ 0x0000) × (kind ≢ 0x0033)

-- The fields that the extensions set, a later one over an earlier one.
unfoldable pub noted : Content → ClientHelloInfo → ClientHelloInfo
noted (server_names ns) info = record info { server_name = first_host ns }
noted (key_shares ks) info = record info { x25519 = first_x25519 ks }
noted (unread kind body) info = info

unfoldable pub described : List Content → ClientHelloInfo → ClientHelloInfo
unfolding noted
described [] info = info
described (c ∷ cs) info = described cs (noted c info)

pub take16-vector :
    (bs rest : List ℕ) → length bs < 65536 → take16 (vector16 bs ++ rest) ≡ ok (some (bs, rest))
unfolding take16
take16-vector bs rest h =
    let n : ℕ = length bs in
    let two : ltb (length (vector16 bs ++ rest)) 2 ≡ false = le→ltb _ _ (omega arith) in
    let fits : ltb (length (vector16 bs ++ rest)) (2 + n) ≡ false =
      le→ltb _ _ (omega (arith, length-append bs rest)) in
    rw (
      two,
      join16-put n h,
      fits,
      slice-append (put_uint16 n) bs rest 2 (2 + n) refl refl,
      slice_from-append (vector16 bs) rest (2 + n) (omega arith),
    )

pub take8-vector : (bs rest : List ℕ) → take8 (vector8 bs ++ rest) ≡ ok (some (bs, rest))
unfolding take8
take8-vector bs rest =
    let n : ℕ = length bs in
    let one : ltb (length (vector8 bs ++ rest)) 1 ≡ false = le→ltb _ _ (omega arith) in
    let fits : ltb (length (vector8 bs ++ rest)) (1 + n) ≡ false =
      le→ltb _ _ (omega (arith, length-append bs rest)) in
    rw (
      one,
      fits,
      slice-append (n ∷ []) bs rest 1 (1 + n) refl refl,
      slice_from-append (vector8 bs) rest (1 + n) (omega arith),
    )

-- A field that is all of the slice.
take16-whole : (bs : List ℕ) → length bs < 65536 → take16 (vector16 bs) ≡ ok (some (bs, []))
take16-whole bs h = rw append-nil at (take16-vector bs [] h)

sni_round-bytes :
    (again : List ℕ → Outcome (List ℕ)) (x : ServerName) (rest : List ℕ)
    → IsServerName x
    → sni_round again (name_bytes x ++ rest) ≡ (if x.name_type == 0 then ok x.name else again rest)
unfolding sni_round name_bytes
sni_round-bytes again x rest v =
    let n : ℕ = length x.name in
    let fits : ltb (length (x.name ++ rest)) n ≡ false =
      le→ltb _ _ (omega (arith, length-append x.name rest)) in
    rw (
      join16-put n v,
      slice_from-append (x.name_type ∷ put_uint16 n) (x.name ++ rest) 3 refl,
      fits,
      slice_to-append x.name rest n refl,
      slice_from-append x.name rest n refl,
    )

sni_loop-first :
    (fuel : ℕ) (ns : List ServerName)
    → All IsServerName ns
    → length (concat_map name_bytes ns) < fuel
    → sni_loop fuel (concat_map name_bytes ns) ≡ ok (first_host ns)
unfolding sni_loop first_host
sni_loop-first zero ns v h = absurd (omega arith)
sni_loop-first (suc fuel) [] v h = refl
sni_loop-first (suc fuel) (x ∷ ns) v h =
    let rest : List ℕ = concat_map name_bytes ns in
    let size = length-name_bytes x rest in
    let long : ltb (length (name_bytes x ++ rest)) 3 ≡ false = le→ltb _ _ (omega arith) in
    rw (long, sni_round-bytes (sni_loop fuel) x rest v.0, sni_loop-first fuel ns v.1 (omega arith))
      (ground arith)

-- On a well-formed list parseSNI returns the first host name.
parse_sni-first :
    (ns : List ServerName)
    → All IsServerName ns
    → length (concat_map name_bytes ns) < 65536
    → parse_sni (vector16 (concat_map name_bytes ns)) ≡ ok (first_host ns)
unfolding parse_sni sni_of
parse_sni-first ns v h =
    rw (take16-whole (concat_map name_bytes ns) h)
      (sni_loop-first (suc (length (concat_map name_bytes ns))) ns v (omega arith))

share_round-bytes :
    (again : List ℕ → Outcome (List ℕ)) (k : KeyShare) (rest : List ℕ)
    → IsKeyShare k
    → share_round again (share_bytes k ++ rest)
      ≡ (if (k.group == 0x001d) && (length k.share == 32) then ok k.share else again rest)
unfolding share_round share_bytes
share_round-bytes again k rest v =
    let n : ℕ = length k.share in
    let fits : ltb (length (k.share ++ rest)) n ≡ false =
      le→ltb _ _ (omega (arith, length-append k.share rest)) in
    rw (
      join16-put k.group v.0,
      join16-put n v.1,
      slice_from-append (put_uint16 k.group ++ put_uint16 n) (k.share ++ rest) 4 refl,
      fits,
      slice_to-append k.share rest n refl,
      slice_from-append k.share rest n refl,
    )

share_loop-first :
    (fuel : ℕ) (ks : List KeyShare)
    → All IsKeyShare ks
    → length (concat_map share_bytes ks) < fuel
    → share_loop fuel (concat_map share_bytes ks) ≡ ok (first_x25519 ks)
unfolding share_loop first_x25519
share_loop-first zero ks v h = absurd (omega arith)
share_loop-first (suc fuel) [] v h = refl
share_loop-first (suc fuel) (k ∷ ks) v h =
    let rest : List ℕ = concat_map share_bytes ks in
    let size = length-share_bytes k rest in
    let long : ltb (length (share_bytes k ++ rest)) 4 ≡ false = le→ltb _ _ (omega arith) in
    rw
      (
        long,
        share_round-bytes (share_loop fuel) k rest v.0,
        share_loop-first fuel ks v.1 (omega arith),
      )
      (ground arith)

-- On a well-formed list parseKeyShareX25519 returns the first X25519 share of 32 bytes.
parse_key_share-first :
    (ks : List KeyShare)
    → All IsKeyShare ks
    → length (concat_map share_bytes ks) < 65536
    → parse_key_share_x25519 (vector16 (concat_map share_bytes ks)) ≡ ok (first_x25519 ks)
unfolding parse_key_share_x25519 share_of
parse_key_share-first ks v h =
    rw (take16-whole (concat_map share_bytes ks) h)
      (share_loop-first (suc (length (concat_map share_bytes ks))) ks v (omega arith))

pub on_extension-noted :
    (c : Content) (info : ClientHelloInfo)
    → IsContent c
    → on_extension (content_extension c).kind (content_extension c).body info ≡ ok (noted c info)
unfolding on_extension content_extension noted
on_extension-noted (server_names ns) info v = rw (parse_sni-first ns v.0 v.1)
on_extension-noted (key_shares ks) info v = rw (parse_key_share-first ks v.0 v.1)
on_extension-noted (unread kind body) info v = ground arith
