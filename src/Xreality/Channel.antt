-- ===== src/Xreality/Channel.antt =====
-- The channel-bound proofs: proof and clientChannelAuth of xreality/client.go, serverChannelAuth of
-- xreality/listener.go. The TLS connection is a stream to read and a sink to write.
pub mod Mutual
pub mod Total
use obfs.Base.{
  ℕ, List, [], ◌∷◌, ◌++◌, ◌==◌, not, ◌&&◌, Bool, true, false, if◌then◌else◌, Option, none, some,
}
use obfs.Base.{Error, Outcome, ok, err, panic, stuck, other, ◌⊎◌, inl, inr}
use obfs.Wire.{Stream, Sink, read_full, base_write}
use obfs.Xreality.Crypto.{Crypto}

abbrev pub proof_len : ℕ
proof_len = 64

abbrev pub server_tag : List ℕ
server_tag = b'S' ∷ []

abbrev pub client_tag : List ℕ
client_tag = b'C' ∷ []

abbrev pub err_server_auth : Error
err_server_auth = other 1

-- hmac.Equal
unfoldable pub hmac_equal : List ℕ → List ℕ → Bool
hmac_equal [] [] = true
hmac_equal (x ∷ xs) (y ∷ ys) = (x == y) && hmac_equal xs ys
hmac_equal _ _ = false

pub record TlsConn : Type 0 where
  pub exported : List ℕ ⊎ Error
  pub incoming : Stream
  pub outgoing : Sink

-- An error, or the connection behind the call.
abbrev pub Checked : Type 0
Checked = Outcome TlsConn

module _ (c : Crypto) where
  unfoldable pub cert_hmac : List ℕ → List ℕ → List ℕ
  cert_hmac auth_key message = c.hmac_sha512 auth_key message

  unfoldable pub proof : List ℕ → List ℕ → List ℕ → List ℕ
  unfolding cert_hmac
  proof auth_key tag ekm = cert_hmac auth_key (tag ++ ekm)

  verify_client : List ℕ → List ℕ → TlsConn → Outcome (List ℕ) × Stream → Checked
  unfolding proof hmac_equal
  verify_client auth_key ekm t (ok got, s) =
      if not (hmac_equal got (proof auth_key client_tag ekm))
      then err err_server_auth
      else ok (record t { incoming = s })
  verify_client auth_key ekm t (err e, s) = err e
  verify_client auth_key ekm t (panic, s) = panic
  verify_client auth_key ekm t (stuck, s) = stuck

  read_client : List ℕ → List ℕ → TlsConn → Option Error × Sink → Checked
  unfolding verify_client
  read_client auth_key ekm t (some e, k) = err e
  read_client auth_key ekm t (none, k) =
      verify_client auth_key ekm (record t { outgoing = k }) (read_full proof_len t.incoming)

  prove_server : List ℕ → TlsConn → List ℕ ⊎ Error → Checked
  unfolding read_client proof
  prove_server auth_key t (inr e) = err e
  prove_server auth_key t (inl ekm) =
      read_client auth_key ekm t (base_write (proof auth_key server_tag ekm) t.outgoing)

  unfoldable pub server_channel_auth : List ℕ → TlsConn → Checked
  unfolding prove_server
  server_channel_auth auth_key t = prove_server auth_key t t.exported

  written : TlsConn → Option Error × Sink → Checked
  written t (none, k) = ok (record t { outgoing = k })
  written t (some e, k) = err e

  verify_server : List ℕ → List ℕ → TlsConn → Outcome (List ℕ) × Stream → Checked
  unfolding proof hmac_equal written
  verify_server auth_key ekm t (ok got, s) =
      if not (hmac_equal got (proof auth_key server_tag ekm))
      then err err_server_auth
      else written (record t { incoming = s })
          (base_write (proof auth_key client_tag ekm) t.outgoing)
  verify_server auth_key ekm t (err e, s) = err e
  verify_server auth_key ekm t (panic, s) = panic
  verify_server auth_key ekm t (stuck, s) = stuck

  prove_client : List ℕ → TlsConn → List ℕ ⊎ Error → Checked
  unfolding verify_server
  prove_client auth_key t (inr e) = err e
  prove_client auth_key t (inl ekm) = verify_server auth_key ekm t (read_full proof_len t.incoming)

  unfoldable pub client_channel_auth : List ℕ → TlsConn → Checked
  unfolding prove_client
  client_channel_auth auth_key t = prove_client auth_key t t.exported
