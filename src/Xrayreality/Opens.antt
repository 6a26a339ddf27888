-- ===== src/Xrayreality/Opens.antt =====
-- What a REALITY server, which is not part of the repository, finds in the session ID of Client.
use obfs.Base.{
  ℕ, zero, suc, ◌+◌, ◌≤◌, ◌≡◌, ◌∙◌, sym, ap, ap₂, refl, subst, List, [], ◌∷◌, ◌++◌, append_assoc,
  length, take, drop, replicate, length-append, length-take, take-append_self, drop-append_self,
  arith, Option, some, Outcome, ok, ◌>>=◌, from_call, slice, slice_from, slice_to, slice-append,
  be_bytes, length-be_bytes, bind-ok, ok-injective, guard-ok, ltb, Bool-cases, inl, inr,
}
use obfs.Xreality.Crypto.{Aead, Crypto}
use obfs.Xreality.Channel.{hmac_equal}
use obfs.Xrayreality.{
  session_id_offset, copied, version_or_default, plain_session_id, with_session_id, ClientHello,
  ClientConfig, Tunnel, ephemeral_of, gcm_sealed, seal_built, seal_hello,
}

take-front : (n : ℕ) (xs ys : List ℕ) → length xs ≡ n → take n (xs ++ ys) ≡ xs
take-front n xs ys h = rw (← h) (take-append_self xs ys)

drop-front : (n : ℕ) (xs ys : List ℕ) → length xs ≡ n → drop n (xs ++ ys) ≡ ys
drop-front n xs ys h = rw (← h) (drop-append_self xs ys)

take-copied : (k n : ℕ) (xs : List ℕ) → k ≤ n → take k (copied n xs) ≡ copied k xs
take-copied zero n [] h = refl
take-copied zero n (x ∷ xs) h = refl
take-copied (suc k) zero xs h = absurd (omega arith)
take-copied (suc k) (suc n) [] h = ap (λ l. 0 ∷ l) (take-copied k n [] (omega arith))
take-copied (suc k) (suc n) (x ∷ xs) h = ap (λ l. x ∷ l) (take-copied k n xs (omega arith))

pub length-copied : (n : ℕ) (xs : List ℕ) → length (copied n xs) ≡ n
length-copied zero xs = refl
length-copied (suc n) [] = ap suc (length-copied n [])
length-copied (suc n) (x ∷ xs) = ap suc (length-copied n xs)

take-behind : (m k : ℕ) (xs ys : List ℕ) → m ≡ length xs + k → take m (xs ++ ys) ≡ xs ++ take k ys
take-behind m k [] ys h = ap (λ n. take n ys) (omega arith)
take-behind zero k (x ∷ xs) ys h = absurd (omega arith)
take-behind (suc m) k (x ∷ xs) ys h = ap (λ l. x ∷ l) (take-behind m k xs ys (omega arith))

-- The first sixteen bytes of the session ID.
pub take-plain_session_id :
    (ver : List ℕ) (now : ℕ) (id : List ℕ)
    → length ver ≡ 3
    → take 16 (plain_session_id ver now id) ≡ ver ++ (0 ∷ (be_bytes 4 now ++ copied 8 id))
unfolding plain_session_id
take-plain_session_id ver now id h =
    take-behind 16 13 ver _ (omega arith)
    ∙ ap (λ l. ver ++ (0 ∷ l))
        (take-behind 12 8 (be_bytes 4 now) _ (omega (arith, length-be_bytes 4 now))
          ∙ ap (λ l. be_bytes 4 now ++ l) (take-copied 8 24 id (omega arith)))

pub length-version : (ver : List ℕ) → length ver ≡ 3 → length (version_or_default ver) ≡ 3
length-version ver h = elim (Bool-cases (hmac_equal ver (replicate 3 0))) [
  | inl unset ↦ rw unset refl
  | inr set ↦ rw set h
]

length-front : (raw : List ℕ) → 71 ≤ length raw → length (take 39 raw) ≡ 39
length-front raw h = omega (arith, length-take 39 raw)

-- A session ID that is written is what stands at its place, and the next one replaces it.
pub slice-with_session_id :
    (raw sid : List ℕ)
    → 71 ≤ length raw
    → length sid ≡ 32
    → slice (with_session_id raw sid) 39 71 ≡ ok sid
unfolding with_session_id
slice-with_session_id raw sid h k =
    rw (sym (append_assoc (take 39 raw) sid (drop 71 raw)))
      (slice-append (take 39 raw) sid (drop 71 raw) 39 71 (length-front raw h) (omega arith))

pub with_session_id-again :
    (raw a b : List ℕ)
    → 71 ≤ length raw
    → length a ≡ 32
    → with_session_id (with_session_id raw a) b ≡ with_session_id raw b
unfolding with_session_id
with_session_id-again raw a b h k =
    let n = length-front raw h in
    let front : take 39 (take 39 raw ++ (a ++ drop 71 raw)) ≡ take 39 raw =
      take-front 39 (take 39 raw) _ n in
    let size : length (take 39 raw ++ a) ≡ 71 = omega (arith, length-append (take 39 raw) a) in
    let back : drop 71 (take 39 raw ++ (a ++ drop 71 raw)) ≡ drop 71 raw =
      ap (λ l. drop 71 l) (sym (append_assoc (take 39 raw) a (drop 71 raw)))
      ∙ drop-front 71 (take 39 raw ++ a) (drop 71 raw) size in
    ap₂ (λ x y. x ++ (b ++ y)) front back

-- What a server with the private key `k` decrypts from a ClientHello with this X25519 share.
abbrev pub opened_by : Crypto → List ℕ → List ℕ → ClientHello → Outcome (Option (List ℕ))
opened_by c k share hello = do
  shared ← from_call (c.ecdh k share)
  salt ← slice_to hello.random 20
  auth_key ← from_call (c.hkdf_key shared salt)
  aead ← from_call (c.aead_for auth_key)
  nonce ← slice_from hello.random 20
  sid ← slice hello.raw session_id_offset 71
  ok (aead.open_sealed nonce sid (with_session_id hello.raw (replicate 32 0)))

gcm_sealed-ok :
    (c : Crypto) (aead : Aead) (nonce plaintext aad sid : List ℕ)
    → gcm_sealed c aead nonce plaintext aad ≡ ok sid
    → sid ≡ aead.seal nonce plaintext aad
unfolding gcm_sealed
gcm_sealed-ok c aead nonce plaintext aad sid h = ground arith

module _ (c : Crypto) (cfg : ClientConfig) (now : ℕ) (k e : List ℕ) (hello : ClientHello) where
  abbrev plain_token : List ℕ
  plain_token = version_or_default cfg.version ++ (0 ∷ (be_bytes 4 now ++ copied 8 cfg.cohort))

  slice_to-plain_token :
      (p : List ℕ)
      → length cfg.version ≡ 3
      → slice_to (plain_session_id (version_or_default cfg.version) now cfg.cohort) 16 ≡ ok p
      → p ≡ plain_token
  unfolding slice_to
  slice_to-plain_token p n h =
      let whole : take 16 (plain_session_id (version_or_default cfg.version) now cfg.cohort) ≡ p =
        ground arith in
      sym whole
      ∙ take-plain_session_id (version_or_default cfg.version) now cfg.cohort (length-version _ n)

  length-plain_token : length cfg.version ≡ 3 → length plain_token ≡ 16
  length-plain_token n = omega (
    arith,
    length-append (version_or_default cfg.version) (0 ∷ (be_bytes 4 now ++ copied 8 cfg.cohort)),
    length-version cfg.version n,
    length-append (be_bytes 4 now) (copied 8 cfg.cohort),
    length-be_bytes 4 now,
    length-copied 8 cfg.cohort,
  )

  opened-gcm_sealed :
      (shared salt auth_key nonce p : List ℕ) (aead : Aead)
      → c.ecdh k (c.public_key e) ≡ c.ecdh e (c.public_key k)
      → from_call (c.ecdh e (c.public_key k)) ≡ ok shared
      → slice_to hello.random 20 ≡ ok salt
      → from_call (c.hkdf_key shared salt) ≡ ok auth_key
      → from_call (c.aead_for auth_key) ≡ ok aead
      → slice_from hello.random 20 ≡ ok nonce
      → length p ≡ 16
      → 71 ≤ length hello.raw
      → opened_by c k (c.public_key e) (record hello {
        raw =
            with_session_id hello.raw
              (aead.seal nonce p (with_session_id hello.raw (replicate 32 0)));
      })
        ≡ ok (some p)
  opened-gcm_sealed shared salt auth_key nonce p aead agree e₁ e₂ e₃ e₄ e₅ n fits =
      let zeros : List ℕ = replicate 32 0 in
      let sid : List ℕ = aead.seal nonce p (with_session_id hello.raw zeros) in
      let size : length sid ≡ 32 =
        omega (arith, aead.length-seal nonce p (with_session_id hello.raw zeros)) in
      let there = slice-with_session_id hello.raw sid fits size in
      let again = with_session_id-again hello.raw sid zeros fits size in
      let back = aead.open-seal nonce p (with_session_id hello.raw zeros) in
      rw (agree, e₁, e₂, e₃, e₄, e₅, there, again, back) refl

  seal_built-opens :
      (t : Tunnel)
      → length cfg.version ≡ 3
      → 71 ≤ length hello.raw
      → seal_built c cfg now (c.public_key k) hello e ≡ ok t
      → opened_by c k (c.public_key e) t.hello ≡ ok (some plain_token)
  unfolding seal_built
  seal_built-opens t n fits h =
      let plain = slice_to (plain_session_id (version_or_default cfg.version) now cfg.cohort) 16 in
      let aad = with_session_id hello.raw (replicate 32 0) in
      let (shared, (e₁, h₁)) = bind-ok (from_call (c.ecdh e (c.public_key k))) _ t h in
      let (salt, (e₂, h₂)) = bind-ok (slice_to hello.random 20) _ t h₁ in
      let (auth_key, (e₃, h₃)) = bind-ok (from_call (c.hkdf_key shared salt)) _ t h₂ in
      let (aead, (e₄, h₄)) = bind-ok (from_call (c.aead_for auth_key)) _ t h₃ in
      let (nonce, (e₅, h₅)) = bind-ok (slice_from hello.random 20) _ t h₄ in
      let (p, (e₆, h₆)) = bind-ok plain _ t h₅ in
      let (sid, (e₇, h₇)) = bind-ok (gcm_sealed c aead nonce p aad) _ t h₆ in
      let is_sealed : sid ≡ aead.seal nonce p aad = gcm_sealed-ok c aead nonce p aad sid e₇ in
      let is_token : p ≡ plain_token = slice_to-plain_token p n e₆ in
      let size : length p ≡ 16 = ap length is_token ∙ length-plain_token n in
      let opens =
        opened-gcm_sealed shared salt auth_key nonce p aead (c.ecdh_agree k e) e₁ e₂ e₃ e₄ e₅ size
          fits in
      let same : record {
        hello = record hello { raw = with_session_id hello.raw (aead.seal nonce p aad) };
        auth_key = auth_key;
      }
          ≡ t =
        ap
          (λ sid'. record {
            hello = record hello { raw = with_session_id hello.raw sid' };
            auth_key = auth_key;
          })
          (sym is_sealed)
        ∙ ok-injective refl h₇ in
      subst (λ t'. opened_by c k (c.public_key e) t'.hello ≡ ok (some plain_token)) same
        (subst
          (λ q.
            opened_by c k (c.public_key e)
              (record hello { raw = with_session_id hello.raw (aead.seal nonce p aad) })
            ≡ ok (some q))
          is_token opens)

-- A REALITY server finds the version, the time and the padded short ID in the session ID: if Client
-- seals a ClientHello for the public key of `k`, whoever has `k` decrypts them with the X25519 share
-- of the key that the client used. The version of the configuration has three bytes.
pub seal_hello-opens :
    (c : Crypto) (cfg : ClientConfig) (now : ℕ) (k e : List ℕ) (hello : ClientHello) (t : Tunnel)
    → length cfg.version ≡ 3
    → ephemeral_of hello.key_share_keys ≡ ok e
    → seal_hello c cfg now (c.public_key k) hello ≡ ok t
    → opened_by c k (c.public_key e) t.hello
      ≡ ok (some (version_or_default cfg.version ++ (0 ∷ (be_bytes 4 now ++ copied 8 cfg.cohort))))
unfolding seal_hello
seal_hello-opens c cfg now k e hello t n ks h =
    let (long, built) = guard-ok (ltb (length hello.raw) 71) _ _ t h in
    seal_built-opens c cfg now k e hello t n (ground arith) (rw ks at built)
