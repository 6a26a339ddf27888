-- ===== src/Xreality/Client/Tests.antt =====
-- A toy TLS library: Client with a server that proves the key, and with one that does not.
use obfs.Base.{
  ℕ, suc, List, [], ◌∷◌, ◌++◌, replicate, none, some, pos, eof, ok, err, inl, ◌≡◌, refl, slice_from,
  slice_to,
}
use obfs.Act.{Ended}
use obfs.Link.{connected, hung_up, IsGone, net_dial, dial_with}
use obfs.Wire.{read_full, base_write}
use obfs.Tlscamo.{alpn_or_default}
use obfs.Xreality.Tests.Toy.{toy}
use obfs.Xreality.Auth.{client_session_id, padded}
use obfs.Xreality.Channel.{
  TlsConn, err_server_auth, hmac_equal, cert_hmac, proof, client_channel_auth,
}
use obfs.Xreality.Client.{ClientConfig, UTls, client, dialer}
use obfs.Xreality.Client.Authentic.{IsGood, dialer-Authentic}

abbrev cfg : ClientConfig
cfg = record {
  server_public_key = replicate 32 7;
  cohort = 1 ∷ [];
  server_name = b'x' ∷ [];
  next_protos = [];
  handshake_timeout = pos 5;
}

abbrev side : List ℕ → TlsConn
side tag = record {
  exported = inl (1 ∷ []);
  incoming = record { bytes = tag ++ (9 ∷ []); fail = eof };
  outgoing = record { sent = []; faults = [] };
}

abbrev utls : List ℕ → UTls ℕ
utls tag = record {
  build = λ name alpn w. (
    inl (record {
      ecdhe = some (4 ∷ []);
      key_shares = record { group = 0x001d; share = replicate 32 7 } ∷ [];
      random = replicate 32 3;
    }),
    suc w,
  );
  marshal = λ sid w. (none, suc w);
  handshake = λ w. (inl (side tag), suc w);
}

authenticates : dialer toy (utls (replicate 64 5)) (λ w. w) cfg (λ w. (none, suc w)) 0 ≡ (
  ok (record {
    exported = inl (1 ∷ []);
    incoming = record { bytes = 9 ∷ []; fail = eof };
    outgoing = record { sent = replicate 64 5; faults = [] };
  }),
  record { world = 4; socket = connected; deadline = none },
)
unfolding dialer dial_with net_dial client alpn_or_default client_session_id padded hmac_equal
    cert_hmac proof client_channel_auth read_full base_write slice_from slice_to
authenticates = refl

rejects :
    dialer toy (utls (replicate 64 6)) (λ w. w) cfg (λ w. (none, suc w)) 0
    ≡ (err err_server_auth, record { world = 4; socket = hung_up; deadline = some (pos 5) })
unfolding dialer dial_with net_dial client alpn_or_default client_session_id padded hmac_equal
    cert_hmac proof client_channel_auth read_full base_write slice_from slice_to
rejects = refl

dialer-Authentic_example :
    Ended
      (IsGood toy (utls (replicate 64 5)) (λ w. w) cfg)
      (λ s. IsGone s.socket)
      (dialer toy (utls (replicate 64 5)) (λ w. w) cfg (λ w. (none, suc w)) 0)
dialer-Authentic_example =
    dialer-Authentic toy (utls (replicate 64 5)) (λ w. w) cfg (λ w. (none, suc w)) 0
