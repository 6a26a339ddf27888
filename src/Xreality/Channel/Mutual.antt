-- ===== src/Xreality/Channel/Mutual.antt =====
-- Two ends that share the auth key and the keying material of the channel.
use obfs.Base.{
  ℕ, ◌≡◌, refl, sym, ap, ◌∙◌, not, Bool-cases, panic, stuck, guard-ok, ok-injective, List, [], ◌∷◌,
  ◌++◌, arith, length, ==_refl, true, false, Option, none, some,
}
use obfs.Base.{Error, Outcome, ok, err, ◌⊎◌, inl, inr}
use obfs.Wire.{Stream, Sink, read_full, base_write}
use obfs.Wire.Laws.{stream, read_full-append, read_full-split}
use obfs.Xreality.Crypto.{Crypto}
use obfs.Xreality.Channel.{
  cert_hmac, err_server_auth, hmac_equal, TlsConn, proof, server_tag, client_tag,
  server_channel_auth, client_channel_auth, verify_client, read_client, prove_server, written,
  verify_server, prove_client,
}

pub hmac_equal_refl : (xs : List ℕ) → hmac_equal xs xs ≡ true
unfolding hmac_equal
hmac_equal_refl [] = refl
hmac_equal_refl (x ∷ xs) = rw (==_refl x) (hmac_equal_refl xs)

pub hmac_equal-eq : (xs ys : List ℕ) → hmac_equal xs ys ≡ true → xs ≡ ys
unfolding hmac_equal
hmac_equal-eq [] [] h = refl
hmac_equal-eq [] (y ∷ ys) h = absurd (cc)
hmac_equal-eq (x ∷ xs) [] h = absurd (cc)
hmac_equal-eq (x ∷ xs) (y ∷ ys) h = ground (arith, hmac_equal-eq xs ys)

module _ (c : Crypto) (key ekm : List ℕ) where
  length-proof : (tag : List ℕ) → length (proof c key tag ekm) ≡ 64
  unfolding proof cert_hmac
  length-proof tag = c.length-hmac_sha512 key (tag ++ ekm)

  -- The two calls in their order on the wire: the server's proof, then the client's. `sent` says
  -- what each side's sink has taken.
  abbrev pub end_of : List ℕ → Error → List ℕ → TlsConn
  end_of incoming fail sent = record {
    exported = inl ekm;
    incoming = stream incoming fail;
    outgoing = record { sent = sent; faults = [] };
  }

  client_channel_auth-server :
      (rest sent : List ℕ) (e : Error)
      → client_channel_auth c key (end_of (proof c key server_tag ekm ++ rest) e sent)
        ≡ ok (end_of rest e (sent ++ proof c key client_tag ekm))
  unfolding client_channel_auth base_write
  client_channel_auth-server rest sent e = rw (
    read_full-append 64 (proof c key server_tag ekm) rest e (length-proof server_tag),
    hmac_equal_refl (proof c key server_tag ekm),
  )

  server_channel_auth-client :
      (rest sent : List ℕ) (e : Error)
      → server_channel_auth c key (end_of (proof c key client_tag ekm ++ rest) e sent)
        ≡ ok (end_of rest e (sent ++ proof c key server_tag ekm))
  unfolding server_channel_auth base_write
  server_channel_auth-client rest sent e = rw (
    read_full-append 64 (proof c key client_tag ekm) rest e (length-proof client_tag),
    hmac_equal_refl (proof c key client_tag ekm),
  )

  -- Two ends with the same auth key and keying material accept each other: with the server's proof
  -- in front of what it reads the client succeeds and sends its own, with the client's in front the
  -- server does. What stands behind a proof stays unread.
  pub channel_auth_mutual :
      (rest sent : List ℕ) (e : Error)
      → (client_channel_auth c key (end_of (proof c key server_tag ekm ++ rest) e sent)
          ≡ ok (end_of rest e (sent ++ proof c key client_tag ekm)))
        × (server_channel_auth c key (end_of (proof c key client_tag ekm ++ rest) e sent)
            ≡ ok (end_of rest e (sent ++ proof c key server_tag ekm)))
  channel_auth_mutual rest sent e =
      (client_channel_auth-server rest sent e, server_channel_auth-client rest sent e)

equal_of_hmac : (xs ys : List ℕ) → not (hmac_equal xs ys) ≡ false → xs ≡ ys
equal_of_hmac xs ys h = elim (Bool-cases (hmac_equal xs ys)) [
  | inl e ↦ hmac_equal-eq xs ys e
  | inr e ↦ absurd (cc)
]

module _ (c : Crypto) (key : List ℕ) where
  written-incoming :
      (t t' : TlsConn) (w : Option Error × Sink) → written c t w ≡ ok t' → t'.incoming ≡ t.incoming
  unfolding written
  written-incoming t t' (none, k) h = ap TlsConn.incoming (ok-injective h refl)
  written-incoming t t' (some e, k) h = absurd (cc)

  verify_server-proof :
      (ekm : List ℕ) (t t' : TlsConn) (r : Outcome (List ℕ) × Stream)
      → verify_server c key ekm t r ≡ ok t'
      → (r.0 ≡ ok (proof c key server_tag ekm)) × (t'.incoming ≡ r.1)
  unfolding verify_server
  verify_server-proof ekm t t' (ok got, s) h =
      let (same, h') =
        guard-ok (not (hmac_equal got (proof c key server_tag ekm))) err_server_auth _ t' h in
      (
        ap ok (equal_of_hmac got (proof c key server_tag ekm) same),
        written-incoming (record t { incoming = s }) t' _ h',
      )
  verify_server-proof ekm t t' (err e, s) h = absurd (cc)
  verify_server-proof ekm t t' (panic, s) h = absurd (cc)
  verify_server-proof ekm t t' (stuck, s) h = absurd (cc)

  verify_client-proof :
      (ekm : List ℕ) (t t' : TlsConn) (r : Outcome (List ℕ) × Stream)
      → verify_client c key ekm t r ≡ ok t'
      → (r.0 ≡ ok (proof c key client_tag ekm)) × (t'.incoming ≡ r.1)
  unfolding verify_client
  verify_client-proof ekm t t' (ok got, s) h =
      let (same, h') =
        guard-ok (not (hmac_equal got (proof c key client_tag ekm))) err_server_auth
          (ok (record t { incoming = s })) t' h in
      (
        ap ok (equal_of_hmac got (proof c key client_tag ekm) same),
        ap TlsConn.incoming (ok-injective h' refl),
      )
  verify_client-proof ekm t t' (err e, s) h = absurd (cc)
  verify_client-proof ekm t t' (panic, s) h = absurd (cc)
  verify_client-proof ekm t t' (stuck, s) h = absurd (cc)

  -- What a success proves: the channel has exported its keying material, and the other side's proof
  -- over it was what came first.
  abbrev pub Proved : List ℕ → TlsConn → TlsConn → Type 0
  Proved tag t t' =
      (ekm : List ℕ) × ((t.exported ≡ inl ekm)
        × (t.incoming.bytes ≡ proof c key tag ekm ++ t'.incoming.bytes))

  read-Proved :
      (tag ekm : List ℕ) (t t' : TlsConn)
      → t.exported ≡ inl ekm
      → ((read_full 64 t.incoming).0 ≡ ok (proof c key tag ekm))
        × (t'.incoming ≡ (read_full 64 t.incoming).1)
      → Proved tag t t'
  read-Proved tag ekm t t' x (h, k) = (
    ekm,
    (
      x,
      read_full-split 64 t.incoming (proof c key tag ekm) h
          ∙ ap (λ (s : Stream). proof c key tag ekm ++ s.bytes) (sym k),
    ),
  )

  prove_client-Proved :
      (x : List ℕ ⊎ Error) (t t' : TlsConn)
      → t.exported ≡ x
      → prove_client c key t x ≡ ok t'
      → Proved server_tag t t'
  unfolding prove_client
  prove_client-Proved (inl ekm) t t' x h =
      read-Proved server_tag ekm t t' x (verify_server-proof ekm t t' (read_full 64 t.incoming) h)
  prove_client-Proved (inr e) t t' x h = absurd (cc)

  read_client-proof :
      (ekm : List ℕ) (t t' : TlsConn) (w : Option Error × Sink)
      → read_client c key ekm t w ≡ ok t'
      → ((read_full 64 t.incoming).0 ≡ ok (proof c key client_tag ekm))
        × (t'.incoming ≡ (read_full 64 t.incoming).1)
  unfolding read_client
  read_client-proof ekm t t' (none, k) h =
      verify_client-proof ekm (record t { outgoing = k }) t' (read_full 64 t.incoming) h
  read_client-proof ekm t t' (some e, k) h = absurd (cc)

  prove_server-Proved :
      (x : List ℕ ⊎ Error) (t t' : TlsConn)
      → t.exported ≡ x
      → prove_server c key t x ≡ ok t'
      → Proved client_tag t t'
  unfolding prove_server
  prove_server-Proved (inl ekm) t t' x h =
      read-Proved client_tag ekm t t' x
        (read_client-proof ekm t t' (base_write (proof c key server_tag ekm) t.outgoing) h)
  prove_server-Proved (inr e) t t' x h = absurd (cc)

  -- If the client's check succeeds, the server has proved the auth key: the first bytes on the
  -- channel are the server's proof over the keying material that this side has exported.
  pub client_channel_auth-Proved :
      (t t' : TlsConn) → client_channel_auth c key t ≡ ok t' → Proved server_tag t t'
  unfolding client_channel_auth
  client_channel_auth-Proved t t' h = prove_client-Proved t.exported t t' refl h

  -- The same for the server's check, with the client's proof.
  pub server_channel_auth-Proved :
      (t t' : TlsConn) → server_channel_auth c key t ≡ ok t' → Proved client_tag t t'
  unfolding server_channel_auth
  server_channel_auth-Proved t t' h = prove_server-Proved t.exported t t' refl h
