-- ===== src/Xrayreality/Tests.antt =====
-- A toy TLS library over the toy cryptography: Client seals a ClientHello and verifies a certificate.
use obfs.Base.{
  ℕ, suc, List, [], ◌∷◌, ◌++◌, replicate, length, none, some, pos, Error, ok, err, inl, inr, ◌⊎◌,
  ◌≡◌, refl, ap, sym, be_bytes, slice_to, slice_from,
}
use obfs.Act.{Ended}
use obfs.Link.{IsGone, net_dial, dial_with, connected, hung_up}
use obfs.Xreality.Channel.{hmac_equal}
use obfs.Xreality.Tests.Toy.{toy}
use obfs.Xrayreality.{
  ClientHello, ClientConfig, Certificate, Tunnel, seal_hello, ephemeral_of, plain_session_id,
  with_session_id, copied, verify, err_not_verified,
}
use obfs.Xrayreality.Client.{UTls, dialer}
use obfs.Xrayreality.Client.Verified.{IsGood, dialer-Ended}
use obfs.Xrayreality.Opens.{opened_by, seal_hello-opens}

abbrev built : ClientHello
built = record {
  raw = replicate 80 1;
  random = replicate 32 3;
  key_share_keys = some (record { ecdhe = none; mlkem_ecdhe = some (4 ∷ []) });
}

abbrev cfg : ClientConfig
cfg = record {
  server_key = replicate 32 7;
  cohort = 10 ∷ 11 ∷ [];
  server_name = b'x' ∷ [];
  version = replicate 3 0;
  handshake_timeout = pos 0;
}

abbrev sent : Tunnel
sent = record {
  hello = record built {
    raw =
        replicate 39 1
        ++ ((1 ∷ 8 ∷ 22 ∷ 0 ∷ 0 ∷ 0 ∷ 1 ∷ 2 ∷ 10 ∷ 11 ∷ replicate 22 0) ++ replicate 9 1);
  };
  auth_key = 9 ∷ [];
}

seal_hello-sent : seal_hello toy cfg 258 (toy.public_key []) built ≡ ok sent
unfolding seal_hello ephemeral_of slice_to slice_from plain_session_id hmac_equal with_session_id
seal_hello-sent = refl

seal_hello-opens_example :
    opened_by toy [] (toy.public_key (4 ∷ [])) sent.hello
    ≡ ok (some (1 ∷ 8 ∷ 22 ∷ 0 ∷ (be_bytes 4 258 ++ copied 8 (10 ∷ 11 ∷ []))))
unfolding ephemeral_of hmac_equal
seal_hello-opens_example =
    seal_hello-opens toy cfg 258 [] (4 ∷ []) built sent refl refl seal_hello-sent

abbrev utls : UTls ℕ
utls = record {
  build = λ w. (inl built, suc w);
  handshake = λ hello w. (record { presented = some ((5 ∷ []) ∷ []); failure = none }, suc w);
}

abbrev parse : List ℕ → Certificate ⊎ Error
parse cert = inl (record { ed25519_key = some cert; signature = replicate 64 5 })

abbrev parse_forged : List ℕ → Certificate ⊎ Error
parse_forged cert = inl (record { ed25519_key = some cert; signature = replicate 64 6 })

dialer-sent :
    dialer toy parse utls (λ w. 258) cfg (λ w. (none, suc w)) 0
    ≡ (ok sent, record { world = 3; socket = connected; deadline = none })
unfolding dialer dial_with net_dial seal_hello verify ephemeral_of slice_to slice_from
    plain_session_id hmac_equal with_session_id
dialer-sent = refl

dialer-forged : dialer toy parse_forged utls (λ w. 258) cfg (λ w. (none, suc w)) 0 ≡ (
  err err_not_verified,
  record { world = 3; socket = hung_up; deadline = some (pos 15000000000) },
)
unfolding dialer dial_with net_dial seal_hello verify ephemeral_of slice_to slice_from
    plain_session_id hmac_equal with_session_id
dialer-forged = refl

randoms : (w : ℕ) (hello : ClientHello) → (utls.build w).0 ≡ inl hello → length hello.random ≡ 32
randoms w hello e =
    ap (λ (r : ClientHello ⊎ Error). elim r [ inl h ↦ length h.random | inr x ↦ 0 ]) (sym e)

dialer-Ended_example :
    Ended
      (IsGood toy parse utls (λ w. 258) cfg)
      (λ s. IsGone s.socket)
      (dialer toy parse utls (λ w. 258) cfg (λ w. (none, suc w)) 0)
dialer-Ended_example = dialer-Ended toy parse utls (λ w. 258) cfg (λ w. (none, suc w)) 0 randoms
