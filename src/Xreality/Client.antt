-- ===== src/Xreality/Client.antt =====
-- Client and Dialer of xreality/client.go, over uTLS as a parameter.
pub mod Authentic
mod Tests
use obfs.Base.{
  ℕ, zero, suc, List, [], ◌∷◌, ◌==◌, not, ◌&&◌, Bool, true, false, if◌then◌else◌, Option, none,
  some, ℤ, pos, negsuc, Error, other, Outcome, ok, err, ◌⊎◌, inl, inr,
}
use obfs.Act.{Act, ◌>>=◌, on_error, or_fail}
use obfs.Link.{Link, hang_up, net_call, settle, set_deadline, dial_with, fresh_link}
use obfs.Tlscamo.{alpn_or_default}
use obfs.Xreality.Crypto.{Crypto}
use obfs.Xreality.Auth.{client_session_id}
use obfs.Xreality.Channel.{TlsConn, hmac_equal, client_channel_auth}

abbrev pub group_x25519 : ℕ
group_x25519 = 0x001d

abbrev pub err_no_x25519 : Error
err_no_x25519 = other 2

-- ClientConfig, but for the fingerprint.
pub record ClientConfig : Type 0 where
  pub server_public_key : List ℕ
  pub cohort : List ℕ
  pub server_name : List ℕ
  pub next_protos : List (List ℕ)
  pub handshake_timeout : ℤ

pub record HelloShare : Type 0 where
  pub group : ℕ
  pub share : List ℕ

-- uTLS's handshake state, once it is built: the private X25519 key, `none` for nil.
pub record HandshakeState : Type 0 where
  pub ecdhe : Option (List ℕ)
  pub key_shares : List HelloShare
  pub random : List ℕ

pub record UTls (W : Type 0) : Type 0 where
  pub build : (server_name : List ℕ) → (alpn : List (List ℕ)) → W → (HandshakeState ⊎ Error) × W
  pub marshal : (session_id : List ℕ) → W → Option Error × W
  pub handshake : W → (TlsConn ⊎ Error) × W

abbrev default_handshake_timeout : ℤ
default_handshake_timeout = pos 15000000000

timeout_of : ℤ → ℤ
timeout_of (pos zero) = default_handshake_timeout
timeout_of (negsuc n) = default_handshake_timeout
timeout_of (pos (suc n)) = pos (suc n)

pub has_x25519_share : List HelloShare → List ℕ → Bool
unfolding hmac_equal
has_x25519_share [] pub_key = false
has_x25519_share (ks ∷ shares) pub_key =
    if (ks.group == group_x25519) && hmac_equal ks.share pub_key
    then true
    else has_x25519_share shares pub_key

module _ {W : Type 0} (c : Crypto) (utls : UTls W) (unix_time : W → ℕ) (cfg : ClientConfig) where
  -- `ks == nil || ks.Ecdhe == nil`, and helloHasX25519Share.
  ephemeral_of : List HelloShare → Option (List ℕ) → Outcome (List ℕ)
  unfolding has_x25519_share
  ephemeral_of shares none = err err_no_x25519
  ephemeral_of shares (some e) =
      if not (has_x25519_share shares (c.public_key e)) then err err_no_x25519 else ok e

  -- ClientSessionID, with the present time.
  session_now : List ℕ → List ℕ → Act (Link W) (List ℕ × List ℕ)
  session_now e random s =
      (client_session_id c cfg.server_public_key e random cfg.cohort (unix_time s.world), s)

  client_steps : Act (Link W) TlsConn
  unfolding timeout_of ephemeral_of session_now alpn_or_default
  client_steps = do
    _ ← set_deadline (some (timeout_of cfg.handshake_timeout))
    hello ← net_call (utls.build cfg.server_name (alpn_or_default cfg.next_protos))
    e ← settle (ephemeral_of hello.key_shares hello.ecdhe)
    token ← session_now e hello.random
    _ ← net_call (λ w. let (r, w') = utls.marshal token.0 w in (or_fail r, w'))
    u ← net_call utls.handshake
    u' ← on_error hang_up (settle (client_channel_auth c token.1 u))
    _ ← set_deadline none
    settle (ok u')

  unfoldable pub client : Act (Link W) TlsConn
  unfolding client_steps
  client = client_steps

  -- What Dialer returns; `dial` is `net.Dial(network, addr)`.
  unfoldable pub dialer : (W → Option Error × W) → W → Outcome TlsConn × Link W
  unfolding client
  dialer dial w = dial_with dial client (fresh_link w)
