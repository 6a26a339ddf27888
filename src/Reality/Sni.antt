-- ===== src/Reality/Sni.antt =====
-- The SNI of a ClientHello: parseClientHelloSNI, sniFromClientHello and sniFromExtension.
pub mod Total
pub mod Finds
use obfs.Base.{
  ℕ, zero, suc, ◌+◌, ◌-◌, ◌≡◌, List, [], ◌∷◌, length, ltb, ◌==◌, not, if◌then◌else◌, ◌||◌,
}
use obfs.Base.{
  Outcome, ok, err, stuck, bad_hello, not_tls, ◌>>=◌, join16, index, uint16_at, slice_from,
  slice_to,
}
use obfs.Wire.{Stream, read_full}

-- One round of the loop of sniFromExtension; `again` is the rest of the loop.
name_round : (List ℕ → Outcome (List ℕ)) → List ℕ → Outcome (List ℕ)
name_round again e = do
  name_type ← index e 0
  nl ← uint16_at e 1
  e₁ ← slice_from e 3
  if ltb (length e₁) nl
      then err bad_hello
      else if name_type == 0x00
      then slice_to e₁ nl
      else (do e₂ ← slice_from e₁ nl; again e₂)

-- `for len(e) >= 3`. Each round takes three bytes at least, which bounds the fuel.
name_loop : ℕ → List ℕ → Outcome (List ℕ)
unfolding name_round
name_loop zero e = stuck
name_loop (suc fuel) e = if ltb (length e) 3 then ok [] else name_round (name_loop fuel) e

unfoldable pub sni_from_extension : List ℕ → Outcome (List ℕ)
unfolding name_loop
sni_from_extension ext = if ltb (length ext) 2 then err bad_hello else do
  list_len ← uint16_at ext 0
  e ← slice_from ext 2
  if ltb (length e) list_len
      then err bad_hello
      else do e' ← slice_to e list_len; name_loop (suc (length e')) e'

-- One round of the loop over session_id, cipher_suites and compression: the slice behind it.
skip_field : ℕ → List ℕ → Outcome (List ℕ)
skip_field field p = if ltb (length p) field then err bad_hello else do
  n ← (if field == 1 then index p 0 else uint16_at p 0)
  p₁ ← slice_from p field
  if ltb (length p₁) n then err bad_hello else slice_from p₁ n

-- One round of the loop over the extensions.
extension_round : (List ℕ → Outcome (List ℕ)) → List ℕ → Outcome (List ℕ)
extension_round again p = do
  ext_type ← uint16_at p 0
  l ← uint16_at p 2
  p₁ ← slice_from p 4
  if ltb (length p₁) l then err bad_hello else do
    ext ← slice_to p₁ l
    p₂ ← slice_from p₁ l
    if ext_type == 0x0000 then sni_from_extension ext else again p₂

-- `for len(p) >= 4`. Each round takes four bytes at least.
extension_loop : ℕ → List ℕ → Outcome (List ℕ)
unfolding extension_round
extension_loop zero p = stuck
extension_loop (suc fuel) p =
    if ltb (length p) 4 then ok [] else extension_round (extension_loop fuel) p

extensions_of : List ℕ → Outcome (List ℕ)
unfolding extension_loop
extensions_of p = if ltb (length p) 2 then ok [] else do
  ext_len ← uint16_at p 0
  p₁ ← slice_from p 2
  if ltb (length p₁) ext_len
      then err bad_hello
      else do p₂ ← slice_to p₁ ext_len; extension_loop (suc (length p₂)) p₂

behind_header : List ℕ → Outcome (List ℕ)
unfolding skip_field extensions_of
behind_header b = do
  p ← slice_from b 4
  if ltb (length p) 34 then err bad_hello else do
    p₀ ← slice_from p 34
    p₁ ← skip_field 1 p₀
    p₂ ← skip_field 2 p₁
    p₃ ← skip_field 1 p₂
    extensions_of p₃

-- The empty list is the SNI "".
unfoldable pub sni_from_client_hello : List ℕ → Outcome (List ℕ)
unfolding behind_header
sni_from_client_hello b =
    if ltb (length b) 4
    then err bad_hello
    else do kind ← index b 0; if not (kind == 0x01) then err bad_hello else behind_header b
