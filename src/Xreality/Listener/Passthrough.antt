-- ===== src/Xreality/Listener/Passthrough.antt =====
-- xreality/listener.go: passthrough, the way of a probe.
pub mod Probes
mod Tests
use obfs.Base.{ℕ, List, [], ◌∷◌, Option, none, some, ◌⊎◌, inl, inr, Error}
use obfs.Wire.{Stream}
use obfs.Splice.{Splice, splice}
use obfs.Xreality.Peek.{PrefixConn, pending}

-- The client's connection is closed, or spliced to the site that was dialled.
pub data Passed : Type 0 where
  hung_up : Passed
  spliced_to : Splice → Passed

-- `dial` is `net.Dial`; the error, if any, is what logf hands to OnError.
module _ (dial : List ℕ → Stream ⊎ Error) where
  pass_dialled : PrefixConn → Stream ⊎ Error → Passed × Option Error
  pass_dialled client (inl site) = (spliced_to (splice (pending client) [] site.bytes), none)
  pass_dialled client (inr e) = (hung_up, some e)

  -- `if l.cfg.Dest == ""`
  unfoldable pub pass_to_dest : List ℕ → PrefixConn → Passed × Option Error
  unfolding pass_dialled
  pass_to_dest [] client = (hung_up, none)
  pass_to_dest (b ∷ dest) client = pass_dialled client (dial (b ∷ dest))
