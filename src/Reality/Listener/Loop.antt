-- ===== src/Reality/Listener/Loop.antt =====
-- reality.go: Listener, acceptLoop, Accept and Close, over handle.
pub mod Accepted
mod Tests
use obfs.Base.{ℕ, ◌≡◌, List, Bool, true, false, Option, none, some, ◌⊎◌, Error, ok}
use obfs.Wire.{Stream, Sink}
use obfs.Gate.{Gate, opened, Steps}
use obfs.Reality.Listener.{ServerConfig, Replayed, dropped, spliced, proxied, tunnelled, handle}

-- Listener, without the default of the timeout and `go l.acceptLoop()`.
abbrev pub new_listener : Gate Stream Stream
new_listener = opened

-- `l.once.Do(func() { close(l.done) })` and `l.base.Close()`
abbrev pub close_listener : Gate Stream Stream → Gate Stream Stream
close_listener l = record l { done = true; base_open = false }

module _ (cfg : ServerConfig) (equal_fold : List ℕ → List ℕ → Bool)
    (tls_server : Replayed → Stream ⊎ Error) (dial : List ℕ → Sink ⊎ Error) where
  -- What a goroutine of handle comes to: it offers its tunnel at the `select`, or it splices, or it
  -- closes the connection.
  pub data Handles (raw : Stream) : Option Stream → Type 0 where
    tunnels :
        (client : Stream)
        → handle cfg equal_fold tls_server dial true raw ≡ ok (tunnelled client)
        → Handles raw (some client)
    splices :
        (pc : Replayed) (upstream : Sink)
        → handle cfg equal_fold tls_server dial true raw ≡ ok (spliced pc upstream)
        → Handles raw none
    proxies :
        (client : Stream) (upstream : Sink)
        → handle cfg equal_fold tls_server dial true raw ≡ ok (proxied client upstream)
        → Handles raw none
    drops : handle cfg equal_fold tls_server dial true raw ≡ ok dropped → Handles raw none

  -- What the goroutines of a listener, its Accept and its Close do, in any order.
  abbrev pub Runs : Gate Stream Stream → Gate Stream Stream → Type 0
  Runs s t = Steps Handles close_listener s t
