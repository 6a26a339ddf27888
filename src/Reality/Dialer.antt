-- ===== src/Reality/Dialer.antt =====
-- Dialer of reality.go: a tlscamo handshake, and the token as the first bytes inside it.
pub mod Sends
mod Tests
use obfs.Base.{ℕ, List, Option, none, some, Error, Outcome, ok, err, ◌⊎◌}
use obfs.Act.{Act, ◌>>=◌, on_error}
use obfs.Link.{Link, net_dial, hang_up, fresh_link}
use obfs.Wire.{Sink, base_write}
use obfs.Tlscamo.{Presets, Config, TlsConfig, client}

pub record ClientConfig : Type 0 where
  pub tls : Config
  pub token : List ℕ

module _ {W : Type 0} where
  written : Option Error × Sink → Act (Link W) Sink
  written (none, conn) s = (ok conn, s)
  written (some e, conn) s = (err e, s)

  -- `conn.Write(cfg.Token)`
  write_token : List ℕ → Sink → Act (Link W) Sink
  unfolding written
  write_token token conn s = written (base_write token conn) s

  -- A TLS connection is what it will take to be written. Its Close closes the raw one.
  unfoldable pub dialer :
      Presets
      → (ℕ → W → ℕ × W)
      → (List ℕ → TlsConfig → W → (Sink ⊎ Error) × W)
      → (W → Option Error × W)
      → ClientConfig
      → Act (Link W) Sink
  unfolding write_token
  dialer p intn handshake dial cfg = do
    _ ← net_dial dial
    conn ← on_error hang_up (client p intn handshake cfg.tls)
    on_error hang_up (write_token cfg.token conn)
