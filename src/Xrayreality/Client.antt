-- ===== src/Xrayreality/Client.antt =====
-- Client and Dialer of xrayreality/client.go. uTLS and x509 are parameters.
pub mod Verified
use obfs.Base.{
  ℕ, List, [], ◌∷◌, Bool, true, false, Option, none, some, ℤ, pos, negsuc, zero, suc, Error,
  Outcome, ok, err, from_call, ◌⊎◌,
}
use obfs.Act.{Act, ◌>>=◌}
use obfs.Link.{Link, hang_up, answered, net_call, settle, set_deadline, dial_with, fresh_link}
use obfs.Xreality.Crypto.{Crypto}
use obfs.Xrayreality.{
  ClientHello, ClientConfig, Tunnel, Certificate, seal_hello, verify, err_not_verified,
  err_no_server_name,
}

-- A handshake: the certificates that it hands to VerifyPeerCertificate, `none` if it does not get
-- there, and the library's own error. An error of the callback ends the handshake with it.
pub record Handshake : Type 0 where
  pub presented : Option (List (List ℕ))
  pub failure : Option Error

pub record UTls (W : Type 0) : Type 0 where
  pub build : W → (ClientHello ⊎ Error) × W
  pub handshake : ClientHello → W → Handshake × W

abbrev default_handshake_timeout : ℤ
default_handshake_timeout = pos 15000000000

handshake_timeout_or_default : ℤ → ℤ
handshake_timeout_or_default (pos zero) = default_handshake_timeout
handshake_timeout_or_default (negsuc n) = default_handshake_timeout
handshake_timeout_or_default (pos (suc n)) = pos (suc n)

-- The end of a handshake: whether `a.verified` is set.
pub ended_with : Bool → Option Error → Outcome Bool
ended_with verified none = ok verified
ended_with verified (some e) = err e

module _ {W : Type 0} (c : Crypto) (parse_certificate : List ℕ → Certificate ⊎ Error)
    (utls : UTls W) (unix_time : W → ℕ) (cfg : ClientConfig) where
  pub checked : Option Error → Option Error → Outcome Bool
  unfolding ended_with
  checked none failure = ended_with true failure
  checked (some e) failure = err e

  pub called_back : List ℕ → Option (List (List ℕ)) → Option Error → Outcome Bool
  unfolding checked ended_with
  called_back auth_key none failure = ended_with false failure
  called_back auth_key (some certs) failure =
      checked (verify c parse_certificate auth_key certs) failure

  -- `u.Handshake()`
  pub shake : Tunnel → Act (Link W) Bool
  unfolding called_back
  shake t s =
      let (h, w) = utls.handshake t.hello s.world in
      (called_back t.auth_key h.presented h.failure, record s { world = w })

  pub finish : Tunnel → Bool → Act (Link W) Tunnel
  finish t true s = (ok t, record s { deadline = none })
  finish t false s = (err err_not_verified, hang_up s)

  pub seal_now : List ℕ → ClientHello → Act (Link W) Tunnel
  seal_now peer hello s = (seal_hello c cfg (unix_time s.world) peer hello, s)

  pub client_steps : Act (Link W) Tunnel
  unfolding shake finish seal_now handshake_timeout_or_default
  client_steps = do
    peer ← settle (from_call (c.new_public_key cfg.server_key))
    _ ← set_deadline (some (handshake_timeout_or_default cfg.handshake_timeout))
    hello ← net_call utls.build
    t ← seal_now peer hello
    verified ← shake t
    finish t verified

  pub client_named : List ℕ → Act (Link W) Tunnel
  unfolding client_steps
  client_named [] s = (err err_no_server_name, s)
  client_named (b ∷ bs) s = client_steps s

  unfoldable pub client : Act (Link W) Tunnel
  unfolding client_named
  client s = client_named cfg.server_name s

  -- What Dialer returns; `dial` is `net.Dial(network, addr)`.
  unfoldable pub dialer : (W → Option Error × W) → W → Outcome Tunnel × Link W
  unfolding client
  dialer dial w = dial_with dial client (fresh_link w)
