-- ===== src/Reality/Dialer/Sends.antt =====
-- What a connection of reality's Dialer has sent.
use obfs.Base.{ℕ, ◌≡◌, refl, ◌++◌, List, Option, none, some, Error, ◌⊎◌}
use obfs.Act.{on_error, Ended, ended_ok, ended_err, Ended-and_then, Ended-cleaned}
use obfs.Link.{Link, connected, IsGone, hang_up, net_dial-Ended, fresh_link}
use obfs.Wire.{Sink, base_write}
use obfs.Wire.Laws.{Wrote, base_write-Wrote}
use obfs.Tlscamo.{Presets, TlsConfig}
use obfs.Tlscamo.Dials.{HasPresented, IsBelow, client-Ended}
use obfs.Reality.Dialer.{ClientConfig, written, write_token, dialer}

module _ {W : Type 0} (p : Presets) (intn : ℕ → W → ℕ × W)
    (handshake : List ℕ → TlsConfig → W → (Sink ⊎ Error) × W) where
  -- The TLS connection of such a handshake, with the token behind what it has sent.
  abbrev pub HasSent : ClientConfig → Sink → Link W → Type 0
  HasSent cfg k s =
      (conn : Sink) × (HasPresented p intn handshake cfg.tls (λ name. name ≡ cfg.tls.server_name)
          conn
        × ((k.sent ≡ conn.sent ++ cfg.token) × (s.socket ≡ connected)))

  write_token-Ended :
      (cfg : ClientConfig) (conn : Sink) (s : Link W)
      → HasPresented p intn handshake cfg.tls (λ name. name ≡ cfg.tls.server_name) conn
      → s.socket ≡ connected
      → Ended
          (HasSent cfg)
          (λ s'. IsGone s'.socket)
          (on_error hang_up (write_token cfg.token conn) s)
  unfolding write_token written
  write_token-Ended cfg conn s h k =
      written-Ended (base_write cfg.token conn) (base_write-Wrote cfg.token conn)
    where
      written-Ended :
          (r : Option Error × Sink)
          → Wrote cfg.token conn r
          → Ended (HasSent cfg) (λ s'. IsGone s'.socket) (on_error hang_up (written r) s)
      written-Ended (none, k') w = ended_ok (conn, (h, (w, k)))
      written-Ended (some e, k') w = ended_err tt

  -- On a connection that Dialer returns, the token follows a handshake of tlscamo's Client, and it is
  -- open; on an error no connection is left open. rand.Intn stays below its argument.
  pub dialer-Sent :
      (dial : W → Option Error × W) (cfg : ClientConfig) (w : W)
      → IsBelow p intn handshake
      → Ended (HasSent cfg) (λ s. IsGone s.socket) (dialer p intn handshake dial cfg (fresh_link w))
  unfolding dialer
  dialer-Sent dial cfg w below = Ended-and_then (net_dial-Ended dial w) (λ _ s k.
      Ended-and_then
        (Ended-cleaned hang_up (client-Ended p intn handshake cfg.tls _ s below refl k) (λ _ _. tt))
        (λ conn s' h. write_token-Ended cfg conn s' h.0 h.1))
