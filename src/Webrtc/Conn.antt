-- ===== src/Webrtc/Conn.antt =====
-- conn of webrtc.go: Read, Write and the deadlines of the data channel's net.Conn.
mod Tests
use obfs.Base.{ℕ, List, ℤ, Option, none, some, Error, ◌⊎◌}

-- A detached data channel. Whether it has the setters of a deadline is found at run time.
pub record Channel (W : Type 0) : Type 0 where
  pub read : ℕ → W → (List ℕ ⊎ Error) × W
  pub write : List ℕ → W → Option Error × W
  pub set_read : Option (ℤ → W → Option Error × W)
  pub set_write : Option (ℤ → W → Option Error × W)

module _ {W : Type 0} (raw : Channel W) where
  abbrev pub conn_read : ℕ → W → (List ℕ ⊎ Error) × W
  conn_read room w = raw.read room w

  abbrev pub conn_write : List ℕ → W → Option Error × W
  conn_write p w = raw.write p w

  -- `if d, ok := c.raw.(interface{ … }); ok { return d.SetReadDeadline(t) }; return nil`
  set_if_there : Option (ℤ → W → Option Error × W) → ℤ → W → Option Error × W
  set_if_there none t w = (none, w)
  set_if_there (some set) t w = set t w

  unfoldable pub set_read_deadline : ℤ → W → Option Error × W
  unfolding set_if_there
  set_read_deadline t w = set_if_there raw.set_read t w

  unfoldable pub set_write_deadline : ℤ → W → Option Error × W
  unfolding set_if_there
  set_write_deadline t w = set_if_there raw.set_write t w

  -- The error of SetReadDeadline is dropped.
  unfoldable pub set_conn_deadline : ℤ → W → Option Error × W
  unfolding set_read_deadline set_write_deadline
  set_conn_deadline t w = set_write_deadline t (set_read_deadline t w).1
