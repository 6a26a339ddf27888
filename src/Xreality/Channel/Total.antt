-- ===== src/Xreality/Channel/Total.antt =====
-- The channel proofs come back with a connection or with an error.
use obfs.Base.{
  ℕ, refl, List, not, Option, none, some, Error, Outcome, ok, err, panic, stuck, ◌⊎◌, inl, inr,
  Returns, Returns-ok, Returns-err, Returns-if,
}
use obfs.Wire.{Stream, Sink, read_full, base_write}
use obfs.Wire.Laws.{read_full-returns}
use obfs.Xreality.Crypto.{Crypto}
use obfs.Xreality.Channel.{
  client_tag, server_tag, err_server_auth, hmac_equal, TlsConn, proof, verify_client, read_client,
  prove_server, server_channel_auth, written, verify_server, prove_client, client_channel_auth,
}

module _ (c : Crypto) (key : List ℕ) where
  verify_client-Returns :
      (ekm : List ℕ) (t : TlsConn) (r : Outcome (List ℕ) × Stream)
      → Returns r.0
      → Returns (verify_client c key ekm t r)
  unfolding verify_client
  verify_client-Returns ekm t (ok got, s) h =
      Returns-if (not (hmac_equal got (proof c key client_tag ekm))) _ _
        (Returns-err err_server_auth) λ _. Returns-ok (record t { incoming = s })
  verify_client-Returns ekm t (err e, s) h = Returns-err e
  verify_client-Returns ekm t (panic, s) h = absurd (h.1 refl)
  verify_client-Returns ekm t (stuck, s) h = absurd (h.0 refl)

  read_full-Returns : (s : Stream) → Returns (read_full 64 s).0
  read_full-Returns s = elim (read_full-returns 64 s) [
    | inl (b, e) ↦ rw e (Returns-ok b)
    | inr (x, e) ↦ rw e (Returns-err x)
  ]

  read_client-Returns :
      (ekm : List ℕ) (t : TlsConn) (w : Option Error × Sink) → Returns (read_client c key ekm t w)
  unfolding read_client
  read_client-Returns ekm t (some e, k) = Returns-err e
  read_client-Returns ekm t (none, k) =
      verify_client-Returns ekm (record t { outgoing = k }) (read_full 64 t.incoming)
        (read_full-Returns t.incoming)

  prove_server-Returns : (x : List ℕ ⊎ Error) (t : TlsConn) → Returns (prove_server c key t x)
  unfolding prove_server
  prove_server-Returns (inr e) t = Returns-err e
  prove_server-Returns (inl ekm) t =
      read_client-Returns ekm t (base_write (proof c key server_tag ekm) t.outgoing)

  pub server_channel_auth-Returns : (t : TlsConn) → Returns (server_channel_auth c key t)
  unfolding server_channel_auth
  server_channel_auth-Returns t = prove_server-Returns t.exported t

  written-Returns : (t : TlsConn) (w : Option Error × Sink) → Returns (written c t w)
  unfolding written
  written-Returns t (none, k) = Returns-ok (record t { outgoing = k })
  written-Returns t (some e, k) = Returns-err e

  verify_server-Returns :
      (ekm : List ℕ) (t : TlsConn) (r : Outcome (List ℕ) × Stream)
      → Returns r.0
      → Returns (verify_server c key ekm t r)
  unfolding verify_server
  verify_server-Returns ekm t (ok got, s) h =
      Returns-if (not (hmac_equal got (proof c key server_tag ekm))) _ _
        (Returns-err err_server_auth) λ _. written-Returns (record t { incoming = s }) _
  verify_server-Returns ekm t (err e, s) h = Returns-err e
  verify_server-Returns ekm t (panic, s) h = absurd (h.1 refl)
  verify_server-Returns ekm t (stuck, s) h = absurd (h.0 refl)

  prove_client-Returns : (x : List ℕ ⊎ Error) (t : TlsConn) → Returns (prove_client c key t x)
  unfolding prove_client
  prove_client-Returns (inr e) t = Returns-err e
  prove_client-Returns (inl ekm) t =
      verify_server-Returns ekm t (read_full 64 t.incoming) (read_full-Returns t.incoming)

  pub client_channel_auth-Returns : (t : TlsConn) → Returns (client_channel_auth c key t)
  unfolding client_channel_auth
  client_channel_auth-Returns t = prove_client-Returns t.exported t
