-- ===== src/Reality/Sni/Total.antt =====
-- The parser comes back on any bytes: with an SNI or with an error, never by a panic, and its loops
-- end.
use obfs.Base.{
  ℕ, zero, suc, ◌≤◌, ◌<◌, ◌≡◌, refl, List, [], arith, length, take, drop, ltb, ltb→le, ◌==◌, not,
}
use obfs.Base.{Outcome, bad_hello, ◌>>=◌, Returns, Returns-ok, Returns-err, if◌then◌else◌, inl, inr}
use obfs.Base.{
  Returns-bind, Returns-if, Returns-index, Returns-uint16, Returns-slice_from, Returns-slice_to,
  length-drop, Returns-slice_to_last, Returns-slice_from_last,
}
use obfs.Base.{slice_to, slice_from, index, uint16_at, index-ok, uint16_at-ok, ◌⊎◌}
use obfs.Reality.Sni.{
  name_round, name_loop, sni_from_extension, skip_field, extension_round, extension_loop,
  extensions_of, behind_header, sni_from_client_hello,
}

name_round-Returns :
    (again : List ℕ → Outcome (List ℕ)) (e : List ℕ)
    → 3 ≤ length e
    → ((e' : List ℕ) → length e' < length e → Returns (again e'))
    → Returns (name_round again e)
unfolding name_round
name_round-Returns again e h k = Returns-index e 0 _ (omega arith) λ t.
    Returns-uint16 e 1 _ (omega arith) λ nl. Returns-slice_from e 3 _ (omega arith) (
      Returns-if (ltb (length (drop 3 e)) nl) _ _ (Returns-err bad_hello)
        λ fits. after t nl (ltb→le _ _ fits))
  where
    after :
        (t nl : ℕ)
        → nl ≤ length (drop 3 e)
        → Returns
            (if t == 0x00 then slice_to (drop 3 e) nl else (slice_from (drop 3 e) nl >>= again))
    after t nl fits = Returns-if (t == 0) _ _ (Returns-slice_to_last (drop 3 e) nl fits) λ _.
        Returns-slice_from (drop 3 e) nl again fits
          (k _ (omega (arith, length-drop nl (drop 3 e), length-drop 3 e)))

name_loop-Returns : (fuel : ℕ) (e : List ℕ) → length e < fuel → Returns (name_loop fuel e)
unfolding name_loop
name_loop-Returns zero e h = absurd (omega arith)
name_loop-Returns (suc fuel) e h = Returns-if (ltb (length e) 3) _ _ (Returns-ok []) λ more.
    name_round-Returns (name_loop fuel) e (ltb→le _ _ more)
      (λ e' shorter. name_loop-Returns fuel e' (omega arith))

sni_from_extension-Returns : (ext : List ℕ) → Returns (sni_from_extension ext)
unfolding sni_from_extension
sni_from_extension-Returns ext = Returns-if (ltb (length ext) 2) _ _ (Returns-err bad_hello) λ two.
    let two' = ltb→le _ _ two in
    Returns-uint16 ext 0 _ two' λ n. Returns-slice_from ext 2 _ two' (
      Returns-if (ltb (length (drop 2 ext)) n) _ _ (Returns-err bad_hello) λ fits.
        Returns-slice_to (drop 2 ext) n _ (ltb→le _ _ fits) (
          name_loop-Returns (suc (length (take n (drop 2 ext)))) (take n (drop 2 ext))
            (omega arith)))

extension_round-Returns :
    (again : List ℕ → Outcome (List ℕ)) (p : List ℕ)
    → 4 ≤ length p
    → ((p' : List ℕ) → length p' < length p → Returns (again p'))
    → Returns (extension_round again p)
unfolding extension_round
extension_round-Returns again p h k = Returns-uint16 p 0 _ (omega arith) λ t.
    Returns-uint16 p 2 _ (omega arith) λ l. Returns-slice_from p 4 _ (omega arith) (
      Returns-if (ltb (length (drop 4 p)) l) _ _ (Returns-err bad_hello) λ fits.
        let fits' = ltb→le _ _ fits in
        Returns-slice_to (drop 4 p) l _ fits' (
          Returns-slice_from (drop 4 p) l _ fits' (
            Returns-if (t == 0) _ _ (sni_from_extension-Returns (take l (drop 4 p))) λ _.
              k (drop l (drop 4 p)) (omega (arith, length-drop l (drop 4 p), length-drop 4 p)))))

extension_loop-Returns : (fuel : ℕ) (p : List ℕ) → length p < fuel → Returns (extension_loop fuel p)
unfolding extension_loop
extension_loop-Returns zero p h = absurd (omega arith)
extension_loop-Returns (suc fuel) p h = Returns-if (ltb (length p) 4) _ _ (Returns-ok []) λ more.
    extension_round-Returns (extension_loop fuel) p (ltb→le _ _ more)
      (λ p' shorter. extension_loop-Returns fuel p' (omega arith))

extensions_of-Returns : (p : List ℕ) → Returns (extensions_of p)
unfolding extensions_of
extensions_of-Returns p = Returns-if (ltb (length p) 2) _ _ (Returns-ok []) λ two.
    let two' = ltb→le _ _ two in
    Returns-uint16 p 0 _ two' λ n. Returns-slice_from p 2 _ two' (
      Returns-if (ltb (length (drop 2 p)) n) _ _ (Returns-err bad_hello) λ fits.
        Returns-slice_to (drop 2 p) n _ (ltb→le _ _ fits) (
          extension_loop-Returns (suc (length (take n (drop 2 p)))) (take n (drop 2 p))
            (omega arith)))

skip_field-Returns :
    (field : ℕ) (p : List ℕ) → (field ≡ 1) ⊎ (field ≡ 2) → Returns (skip_field field p)
unfolding skip_field
skip_field-Returns field p h = Returns-if (ltb (length p) field) _ _ (Returns-err bad_hello) λ room.
    let room' = ltb→le _ _ room in
    Returns-bind (if field == 1 then index p 0 else uint16_at p 0) _ (size room') λ n _.
      Returns-slice_from p field _ room' (
        Returns-if (ltb (length (drop field p)) n) _ _ (Returns-err bad_hello)
          λ fits. Returns-slice_from_last (drop field p) n (ltb→le _ _ fits))
  where
    size : field ≤ length p → Returns (if field == 1 then index p 0 else uint16_at p 0)
    size room = elim h [
      | inl one ↦ rw one (let (b, e) = index-ok p 0 (omega arith) in rw e (Returns-ok b))
      | inr two ↦ rw two (let (n, e) = uint16_at-ok p 0 (omega arith) in rw e (Returns-ok n))
    ]

behind_header-Returns : (b : List ℕ) → 4 ≤ length b → Returns (behind_header b)
unfolding behind_header
behind_header-Returns b h = Returns-slice_from b 4 _ h (
    Returns-if (ltb (length (drop 4 b)) 34) _ _ (Returns-err bad_hello) λ random.
      Returns-slice_from (drop 4 b) 34 _ (ltb→le _ _ random) (
        Returns-bind (skip_field 1 (drop 34 (drop 4 b))) _ (skip_field-Returns 1 _ (inl refl))
          λ p₁ _. Returns-bind (skip_field 2 p₁) _ (skip_field-Returns 2 p₁ (inr refl)) λ p₂ _.
            Returns-bind (skip_field 1 p₂) _ (skip_field-Returns 1 p₂ (inl refl))
              λ p₃ _. extensions_of-Returns p₃))

-- On any bytes sniFromClientHello returns an SNI or an error: no index or slice is out of range,
-- and its loops end.
pub sni_from_client_hello-Returns : (b : List ℕ) → Returns (sni_from_client_hello b)
unfolding sni_from_client_hello
sni_from_client_hello-Returns b = Returns-if (ltb (length b) 4) _ _ (Returns-err bad_hello) λ four.
    let four' = ltb→le _ _ four in
    Returns-index b 0 _ (omega arith) λ kind.
      Returns-if (not (kind == 1)) _ _ (Returns-err bad_hello) λ _. behind_header-Returns b four'
