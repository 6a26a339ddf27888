-- ===== src/Reality/Listener/Splices.antt =====
-- reality.go: the splices at the end of passthrough and of reverseProxy.
pub mod Probes
mod Tests
use obfs.Base.{ℕ, List, Option, none, some}
use obfs.Splice.{Splice, splice}
use obfs.Reality.Listener.{Verdict, dropped, spliced, proxied, tunnelled, pending}

-- `site` is what the upstream delivers.
abbrev pub splice_of : List ℕ → Verdict → Option Splice
splice_of site dropped = none
splice_of site (spliced client upstream) = some (splice (pending client) upstream.sent site)
splice_of site (proxied client upstream) = some (splice client.bytes upstream.sent site)
splice_of site (tunnelled client) = none
