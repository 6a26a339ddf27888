-- ===== src/Xreality/Parse.antt =====
-- xreality/clienthello.go: ParseClientHello, parseSNI, parseKeyShareX25519, take8 and take16.
-- The fields that the Go function returns beside an error are left out; Authenticate drops them.
pub mod Total
pub mod Finds
pub mod Record
use obfs.Base.{
  ℕ, zero, suc, ◌+◌, ◌*◌, ◌≡◌, List, [], ◌∷◌, length, ltb, ◌==◌, not, if◌then◌else◌, ◌||◌, ◌&&◌,
}
use obfs.Base.{Option, none, some}
use obfs.Base.{
  Outcome, ok, err, stuck, bad_hello, not_tls, ◌>>=◌, index, uint16_at, slice, slice_from, slice_to,
}

-- A nil slice is the empty list.
pub record ClientHelloInfo : Type 0 where
  pub random : List ℕ
  pub session_id : List ℕ
  pub server_name : List ℕ
  pub x25519 : List ℕ

-- A field and the rest; `none` where the Go function returns false.
abbrev pub Taken : Type 0
Taken = Option (List ℕ × List ℕ)

pub take8 : List ℕ → Outcome Taken
take8 p = if ltb (length p) 1 then ok none else do
  n ← index p 0
  if ltb (length p) (1 + n)
      then ok none
      else do field ← slice p 1 (1 + n); rest ← slice_from p (1 + n); ok (some (field, rest))

pub take16 : List ℕ → Outcome Taken
take16 p = if ltb (length p) 2 then ok none else do
  n ← uint16_at p 0
  if ltb (length p) (2 + n)
      then ok none
      else do field ← slice p 2 (2 + n); rest ← slice_from p (2 + n); ok (some (field, rest))

-- One round of the loop of parseSNI; `again` is the rest of the loop.
sni_round : (List ℕ → Outcome (List ℕ)) → List ℕ → Outcome (List ℕ)
sni_round again list = do
  name_type ← index list 0
  nl ← uint16_at list 1
  list₁ ← slice_from list 3
  if ltb (length list₁) nl
      then ok []
      else if name_type == 0x00
      then slice_to list₁ nl
      else (do list₂ ← slice_from list₁ nl; again list₂)

-- `for len(list) >= 3`. Each round takes three bytes at least, which bounds the fuel.
sni_loop : ℕ → List ℕ → Outcome (List ℕ)
unfolding sni_round
sni_loop zero list = stuck
sni_loop (suc fuel) list = if ltb (length list) 3 then ok [] else sni_round (sni_loop fuel) list

sni_of : Taken → Outcome (List ℕ)
unfolding sni_loop
sni_of none = ok []
sni_of (some t) = sni_loop (suc (length t.0)) t.0

unfoldable pub parse_sni : List ℕ → Outcome (List ℕ)
unfolding take16 sni_of
parse_sni ext = do list ← take16 ext; sni_of list

-- One round of the loop of parseKeyShareX25519.
share_round : (List ℕ → Outcome (List ℕ)) → List ℕ → Outcome (List ℕ)
share_round again shares = do
  group ← uint16_at shares 0
  dl ← uint16_at shares 2
  shares₁ ← slice_from shares 4
  if ltb (length shares₁) dl then ok [] else do
    data_bytes ← slice_to shares₁ dl
    shares₂ ← slice_from shares₁ dl
    if (group == 0x001d) && (length data_bytes == 32) then ok data_bytes else again shares₂

-- `for len(shares) >= 4`. Each round takes four bytes at least.
share_loop : ℕ → List ℕ → Outcome (List ℕ)
unfolding share_round
share_loop zero shares = stuck
share_loop (suc fuel) shares =
    if ltb (length shares) 4 then ok [] else share_round (share_loop fuel) shares

share_of : Taken → Outcome (List ℕ)
unfolding share_loop
share_of none = ok []
share_of (some t) = share_loop (suc (length t.0)) t.0

unfoldable pub parse_key_share_x25519 : List ℕ → Outcome (List ℕ)
unfolding take16 share_of
parse_key_share_x25519 ext = do shares ← take16 ext; share_of shares

-- The switch over the type of an extension.
pub on_extension : ℕ → List ℕ → ClientHelloInfo → Outcome ClientHelloInfo
unfolding parse_sni parse_key_share_x25519
on_extension etype body info =
    if etype == 0x0000
    then (do name ← parse_sni body; ok (record info { server_name = name }))
    else if etype == 0x0033
    then (do share ← parse_key_share_x25519 body; ok (record info { x25519 = share }))
    else ok info

info_round :
    (ClientHelloInfo → List ℕ → Outcome ClientHelloInfo)
    → ClientHelloInfo
    → List ℕ
    → Outcome ClientHelloInfo
unfolding on_extension
info_round again info ext = do
  etype ← uint16_at ext 0
  l ← uint16_at ext 2
  ext₁ ← slice_from ext 4
  if ltb (length ext₁) l then err bad_hello else do
    body ← slice_to ext₁ l
    ext₂ ← slice_from ext₁ l
    info' ← on_extension etype body info
    again info' ext₂

-- `for len(ext) >= 4`. Each round takes four bytes at least.
info_loop : ℕ → ClientHelloInfo → List ℕ → Outcome ClientHelloInfo
unfolding info_round
info_loop zero info ext = stuck
info_loop (suc fuel) info ext =
    if ltb (length ext) 4 then ok info else info_round (info_loop fuel) info ext

info_extensions : ClientHelloInfo → List ℕ → Outcome ClientHelloInfo
unfolding info_loop
info_extensions info p = if ltb (length p) 2 then ok info else do
  ext_len ← uint16_at p 0
  p₁ ← slice_from p 2
  if ltb (length p₁) ext_len
      then err bad_hello
      else do ext ← slice_to p₁ ext_len; info_loop (suc (length ext)) info ext

-- `if !ok { return info, ErrBadHello }`
or_bad : Taken → Outcome (List ℕ × List ℕ)
or_bad none = err bad_hello
or_bad (some t) = ok t

hello_fields : List ℕ → Outcome ClientHelloInfo
unfolding take8 take16 or_bad info_extensions
hello_fields p = if ltb (length p) 34 then err bad_hello else do
  random ← slice p 2 34
  p₁ ← slice_from p 34
  sid ← take8 p₁
  session ← or_bad sid
  cipher_suites ← take16 (session.1)
  suites ← or_bad cipher_suites
  compression_methods ← take8 (suites.1)
  compression ← or_bad compression_methods
  info_extensions
      (record { random = random; session_id = session.0; server_name = []; x25519 = [] })
      (compression.1)

handshake_of : List ℕ → Outcome ClientHelloInfo
unfolding hello_fields
handshake_of b = do
  kind ← index b 0
  if not (kind == 0x01) then err bad_hello else do
    hs₁ ← index b 1
    hs₂ ← index b 2
    hs₃ ← index b 3
    body ← slice_from b 4
    if ltb (length body) (hs₁ * 65536 + hs₂ * 256 + hs₃)
        then err bad_hello
        else do p ← slice_to body (hs₁ * 65536 + hs₂ * 256 + hs₃); hello_fields p

record_of : List ℕ → Outcome ClientHelloInfo
unfolding handshake_of
record_of bytes = do
  rec_len ← uint16_at bytes 3
  if ltb rec_len 4 || ltb (length bytes) (5 + rec_len)
      then err bad_hello
      else do b ← slice bytes 5 (5 + rec_len); handshake_of b

unfoldable pub parse_client_hello : List ℕ → Outcome ClientHelloInfo
unfolding record_of
parse_client_hello bytes =
    if ltb (length bytes) 5
    then err not_tls
    else do kind ← index bytes 0; if not (kind == 0x16) then err not_tls else record_of bytes
