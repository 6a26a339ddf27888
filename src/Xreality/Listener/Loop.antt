-- ===== src/Xreality/Listener/Loop.antt =====
-- xreality/listener.go: Listener, acceptLoop, Accept and Close, over handle.
pub mod Accepted
mod Tests
use obfs.Base.{
  ℕ, zero, suc, pos, negsuc, ◌≡◌, List, true, false, Option, none, some, ℤ, ◌⊎◌, Error, ok,
}
use obfs.Wire.{Stream}
use obfs.Gate.{Gate, opened, Steps}
use obfs.Xreality.Crypto.{Crypto}
use obfs.Xreality.Peek.{PrefixConn}
use obfs.Xreality.Channel.{TlsConn}
use obfs.Xreality.Listener.{ServerConfig, passthrough, closed_conn, tunnel, handle}

-- A connection of the base listener, with the time since a timestamp by the clock when it is handled.
pub record Incoming : Type 0 where
  pub conn : Stream
  pub since : ℕ → ℤ

-- Listener, without `go l.acceptLoop()`.
abbrev pub new_listener : Gate Incoming TlsConn
new_listener = opened

-- `l.once.Do(func() { close(l.done) })` and `l.base.Close()`
abbrev pub close_listener : Gate Incoming TlsConn → Gate Incoming TlsConn
close_listener l = record l { done = true; base_open = false }

module _ (c : Crypto) (cfg : ServerConfig) (tls_server : PrefixConn → TlsConn ⊎ Error) where
  -- What a goroutine of handle comes to: it offers its tunnel at the `select`, or it returns.
  pub data Handles (raw : Incoming) : Option TlsConn → Type 0 where
    tunnels :
        (t : TlsConn)
        → handle c cfg raw.since tls_server true raw.conn ≡ ok (tunnel t)
        → Handles raw (some t)
    splices :
        (pc : PrefixConn)
        → handle c cfg raw.since tls_server true raw.conn ≡ ok (passthrough pc)
        → Handles raw none
    closes : handle c cfg raw.since tls_server true raw.conn ≡ ok closed_conn → Handles raw none

  -- What the goroutines of a listener, its Accept and its Close do, in any order.
  abbrev pub Runs : Gate Incoming TlsConn → Gate Incoming TlsConn → Type 0
  Runs s t = Steps Handles close_listener s t
