-- ===== src/Xreality/Parse/Total.antt =====
-- Any bytes are parsed without a panic, and the loops end.
use obfs.Base.{
  ℕ, suc, zero, ◌+◌, ◌*◌, ◌≤◌, ◌<◌, ◌≡◌, List, [], arith, length, take, drop, ltb, ltb→le, ◌==◌,
  not, ◌||◌, ◌&&◌, Bool, false, true, none, some, refl,
}
use obfs.Base.{Outcome, bad_hello, not_tls, ◌>>=◌, Returns, Returns-ok, Returns-err, if◌then◌else◌}
use obfs.Base.{
  Returns-bind, Returns-if, Returns-index, Returns-uint16, Returns-slice, Returns-slice_from,
  Returns-slice_to, length-drop, length-take, Returns-slice_to_last,
}
use obfs.Base.{slice_to, slice_from}
use obfs.Xreality.Parse.{
  ClientHelloInfo, Taken, take8, take16, sni_round, sni_loop, sni_of, parse_sni, share_round,
  share_loop, share_of, parse_key_share_x25519, on_extension, info_round, info_loop,
  info_extensions, or_bad, hello_fields, handshake_of, record_of, parse_client_hello,
}

take8-Returns : (p : List ℕ) → Returns (take8 p)
unfolding take8
take8-Returns p = Returns-if (ltb (length p) 1) _ _ (Returns-ok none) λ one.
    let one' = ltb→le _ _ one in
    Returns-index p 0 _ one' λ n. Returns-if (ltb (length p) (1 + n)) _ _ (Returns-ok none) λ fits.
      Returns-slice p 1 (1 + n) _ (omega arith) (ltb→le _ _ fits)
        (Returns-slice_from p (1 + n) _ (ltb→le _ _ fits) (Returns-ok _))

take16-Returns : (p : List ℕ) → Returns (take16 p)
unfolding take16
take16-Returns p = Returns-if (ltb (length p) 2) _ _ (Returns-ok none) λ two.
    let two' = ltb→le _ _ two in
    Returns-uint16 p 0 _ two' λ n. Returns-if (ltb (length p) (2 + n)) _ _ (Returns-ok none) λ fits.
      Returns-slice p 2 (2 + n) _ (omega arith) (ltb→le _ _ fits)
        (Returns-slice_from p (2 + n) _ (ltb→le _ _ fits) (Returns-ok _))

sni_round-Returns :
    (again : List ℕ → Outcome (List ℕ)) (list : List ℕ)
    → 3 ≤ length list
    → ((l : List ℕ) → length l < length list → Returns (again l))
    → Returns (sni_round again list)
unfolding sni_round
sni_round-Returns again list h k = Returns-index list 0 _ (omega arith) λ t.
    Returns-uint16 list 1 _ (omega arith) λ nl. Returns-slice_from list 3 _ (omega arith) (
      Returns-if (ltb (length (drop 3 list)) nl) _ _ (Returns-ok [])
        λ fits. after t nl (ltb→le _ _ fits))
  where
    after :
        (t nl : ℕ)
        → nl ≤ length (drop 3 list)
        → Returns (
            if t == 0x00
            then slice_to (drop 3 list) nl
            else (slice_from (drop 3 list) nl >>= again))
    after t nl fits = Returns-if (t == 0) _ _ (Returns-slice_to_last (drop 3 list) nl fits) λ _.
        Returns-slice_from (drop 3 list) nl again fits
          (k _ (omega (arith, length-drop nl (drop 3 list), length-drop 3 list)))

sni_loop-Returns : (fuel : ℕ) (list : List ℕ) → length list < fuel → Returns (sni_loop fuel list)
unfolding sni_loop
sni_loop-Returns zero list h = absurd (omega arith)
sni_loop-Returns (suc fuel) list h = Returns-if (ltb (length list) 3) _ _ (Returns-ok []) λ more.
    sni_round-Returns (sni_loop fuel) list (ltb→le _ _ more)
      (λ l shorter. sni_loop-Returns fuel l (omega arith))

sni_of-Returns : (t : Taken) → Returns (sni_of t)
unfolding sni_of
sni_of-Returns none = Returns-ok []
sni_of-Returns (some t) = sni_loop-Returns (suc (length t.0)) t.0 (omega arith)

parse_sni-Returns : (ext : List ℕ) → Returns (parse_sni ext)
unfolding parse_sni
parse_sni-Returns ext = Returns-bind (take16 ext) _ (take16-Returns ext) (λ t _. sni_of-Returns t)

share_round-Returns :
    (again : List ℕ → Outcome (List ℕ)) (shares : List ℕ)
    → 4 ≤ length shares
    → ((l : List ℕ) → length l < length shares → Returns (again l))
    → Returns (share_round again shares)
unfolding share_round
share_round-Returns again shares h k = Returns-uint16 shares 0 _ (omega arith) λ g.
    Returns-uint16 shares 2 _ (omega arith) λ dl. Returns-slice_from shares 4 _ (omega arith) (
      Returns-if (ltb (length (drop 4 shares)) dl) _ _ (Returns-ok []) λ fits.
        let fits' = ltb→le _ _ fits in
        Returns-slice_to (drop 4 shares) dl _ fits' (
          Returns-slice_from (drop 4 shares) dl _ fits' (
            Returns-if ((g == 0x001d) && (length (take dl (drop 4 shares)) == 32)) _ _
              (Returns-ok (take dl (drop 4 shares)))
              λ _. k _ (omega (arith, length-drop dl (drop 4 shares), length-drop 4 shares)))))

share_loop-Returns :
    (fuel : ℕ) (shares : List ℕ) → length shares < fuel → Returns (share_loop fuel shares)
unfolding share_loop
share_loop-Returns zero shares h = absurd (omega arith)
share_loop-Returns (suc fuel) shares h =
    Returns-if (ltb (length shares) 4) _ _ (Returns-ok []) λ more.
      share_round-Returns (share_loop fuel) shares (ltb→le _ _ more)
        (λ l shorter. share_loop-Returns fuel l (omega arith))

share_of-Returns : (t : Taken) → Returns (share_of t)
unfolding share_of
share_of-Returns none = Returns-ok []
share_of-Returns (some t) = share_loop-Returns (suc (length t.0)) t.0 (omega arith)

parse_key_share_x25519-Returns : (ext : List ℕ) → Returns (parse_key_share_x25519 ext)
unfolding parse_key_share_x25519
parse_key_share_x25519-Returns ext =
    Returns-bind (take16 ext) _ (take16-Returns ext) (λ t _. share_of-Returns t)

on_extension-Returns :
    (etype : ℕ) (body : List ℕ) (info : ClientHelloInfo) → Returns (on_extension etype body info)
unfolding on_extension
on_extension-Returns etype body info =
    Returns-if (etype == 0x0000) _ _
      (Returns-bind (parse_sni body) _ (parse_sni-Returns body) (λ n _. Returns-ok _))
      λ _.
        Returns-if (etype == 0x0033) _ _
          (Returns-bind (parse_key_share_x25519 body) _ (parse_key_share_x25519-Returns body)
            (λ s _. Returns-ok _))
          λ _. Returns-ok info

info_round-Returns :
    (again : ClientHelloInfo → List ℕ → Outcome ClientHelloInfo) (info : ClientHelloInfo)
    (ext : List ℕ)
    → 4 ≤ length ext
    → ((i : ClientHelloInfo) (l : List ℕ) → length l < length ext → Returns (again i l))
    → Returns (info_round again info ext)
unfolding info_round
info_round-Returns again info ext h k = Returns-uint16 ext 0 _ (omega arith) λ t.
    Returns-uint16 ext 2 _ (omega arith) λ l. Returns-slice_from ext 4 _ (omega arith) (
      Returns-if (ltb (length (drop 4 ext)) l) _ _ (Returns-err bad_hello) λ fits.
        let fits' = ltb→le _ _ fits in
        Returns-slice_to (drop 4 ext) l _ fits' (
          Returns-slice_from (drop 4 ext) l _ fits' (
            Returns-bind (on_extension t (take l (drop 4 ext)) info) _
              (on_extension-Returns t (take l (drop 4 ext)) info)
              λ i _. k i _ (omega (arith, length-drop l (drop 4 ext), length-drop 4 ext)))))

info_loop-Returns :
    (fuel : ℕ) (info : ClientHelloInfo) (ext : List ℕ)
    → length ext < fuel
    → Returns (info_loop fuel info ext)
unfolding info_loop
info_loop-Returns zero info ext h = absurd (omega arith)
info_loop-Returns (suc fuel) info ext h =
    Returns-if (ltb (length ext) 4) _ _ (Returns-ok info) λ more.
      info_round-Returns (info_loop fuel) info ext (ltb→le _ _ more)
        (λ i l shorter. info_loop-Returns fuel i l (omega arith))

info_extensions-Returns : (info : ClientHelloInfo) (p : List ℕ) → Returns (info_extensions info p)
unfolding info_extensions
info_extensions-Returns info p = Returns-if (ltb (length p) 2) _ _ (Returns-ok info) λ two.
    let two' = ltb→le _ _ two in
    Returns-uint16 p 0 _ two' λ n. Returns-slice_from p 2 _ two' (
      Returns-if (ltb (length (drop 2 p)) n) _ _ (Returns-err bad_hello) λ fits.
        Returns-slice_to (drop 2 p) n _ (ltb→le _ _ fits) (
          info_loop-Returns (suc (length (take n (drop 2 p)))) info (take n (drop 2 p))
            (omega arith)))

or_bad-Returns : (t : Taken) → Returns (or_bad t)
unfolding or_bad
or_bad-Returns none = Returns-err bad_hello
or_bad-Returns (some t) = Returns-ok t

hello_fields-Returns : (p : List ℕ) → Returns (hello_fields p)
unfolding hello_fields
hello_fields-Returns p = Returns-if (ltb (length p) 34) _ _ (Returns-err bad_hello) λ long.
    let long' = ltb→le _ _ long in
    Returns-slice p 2 34 _ (omega arith) long' (
      Returns-slice_from p 34 _ long' (
        Returns-bind (take8 (drop 34 p)) _ (take8-Returns (drop 34 p)) λ t₁ _.
          Returns-bind (or_bad t₁) _ (or_bad-Returns t₁) λ s _.
            Returns-bind (take16 (s.1)) _ (take16-Returns (s.1)) λ t₂ _.
              Returns-bind (or_bad t₂) _ (or_bad-Returns t₂) λ u _.
                Returns-bind (take8 (u.1)) _ (take8-Returns (u.1)) λ t₃ _.
                  Returns-bind (or_bad t₃) _ (or_bad-Returns t₃)
                    λ v _. info_extensions-Returns _ (v.1)))

handshake_of-Returns : (b : List ℕ) → 4 ≤ length b → Returns (handshake_of b)
unfolding handshake_of
handshake_of-Returns b h = Returns-index b 0 _ (omega arith) λ kind.
    Returns-if (not (kind == 1)) _ _ (Returns-err bad_hello) λ _.
      Returns-index b 1 _ (omega arith) λ x. Returns-index b 2 _ (omega arith) λ y.
        Returns-index b 3 _ (omega arith) λ z. Returns-slice_from b 4 _ h (
          Returns-if (ltb (length (drop 4 b)) (x * 65536 + y * 256 + z)) _ _ (Returns-err bad_hello)
            λ fits.
              Returns-slice_to (drop 4 b) (x * 65536 + y * 256 + z) _ (ltb→le _ _ fits)
                (hello_fields-Returns _))

neither : (a b : Bool) → (a || b) ≡ false → (a ≡ false) × (b ≡ false)
neither false b h = (refl, h)
neither true b h = ((cc), (cc))

record_of-Returns : (bytes : List ℕ) → 5 ≤ length bytes → Returns (record_of bytes)
unfolding record_of
record_of-Returns bytes h = Returns-uint16 bytes 3 _ (omega arith) λ n.
    Returns-if (ltb n 4 || ltb (length bytes) (5 + n)) _ _ (Returns-err bad_hello) λ fits.
      let (four, room) = neither (ltb n 4) (ltb (length bytes) (5 + n)) fits in
      let four' = ltb→le n 4 four in
      let room' = ltb→le _ _ room in
      Returns-slice bytes 5 (5 + n) _ (omega arith) room' (
        handshake_of-Returns (drop 5 (take (5 + n) bytes))
          (omega (arith, length-drop 5 (take (5 + n) bytes), length-take (5 + n) bytes)))

-- On any bytes ParseClientHello returns the fields or an error: no index or slice is out of range,
-- and its loops end.
pub parse_client_hello-Returns : (bytes : List ℕ) → Returns (parse_client_hello bytes)
unfolding parse_client_hello
parse_client_hello-Returns bytes =
    Returns-if (ltb (length bytes) 5) _ _ (Returns-err not_tls) λ five.
      let five' = ltb→le _ _ five in
      Returns-index bytes 0 _ (omega arith) λ kind.
        Returns-if (not (kind == 0x16)) _ _ (Returns-err not_tls) λ _. record_of-Returns bytes five'
