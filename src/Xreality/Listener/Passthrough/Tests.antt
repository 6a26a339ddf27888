-- ===== src/Xreality/Listener/Passthrough/Tests.antt =====
-- A probe whose ClientHello goes on to the real site.
use obfs.Base.{refl, ℕ, List, [], ◌∷◌, ◌≡◌, eof, ◌⊎◌, inl, Error}
use obfs.Wire.{Stream}
use obfs.Wire.Laws.{stream}
use obfs.Splice.{Splice, splice, reading, reads, writes, upward, Spliced, not_yet, and_on}
use obfs.Splice.Transparent.{Transparent}
use obfs.Xreality.Peek.{PrefixConn}
use obfs.Xreality.Tests.Toy.{toy}
use obfs.Xreality.Tests.{cfg, tls_server, since, raw, handles_probe}
use obfs.Xreality.Listener.Passthrough.{spliced_to, pass_to_dest}
use obfs.Xreality.Listener.Passthrough.Probes.{probe-Transparent}

abbrev site : Stream
site = stream (b'o' ∷ b'k' ∷ []) eof

abbrev net : List ℕ → Stream ⊎ Error
net dest = inl site

abbrev hello : List ℕ
hello = 0x16 ∷ 3 ∷ 1 ∷ 0 ∷ 4 ∷ 1 ∷ 0 ∷ 0 ∷ 0 ∷ []

abbrev probe : PrefixConn
probe = record { prefix = hello; conn = record { bytes = b'x' ∷ []; fail = eof } }

abbrev at_start : Splice
at_start = splice raw.bytes [] site.bytes

dials_dest : (pass_to_dest net (b'd' ∷ []) probe).0 ≡ spliced_to at_start
unfolding pass_to_dest
dials_dest = refl

abbrev hello_sent : Splice
hello_sent = record at_start {
  up = record { source = b'x' ∷ []; copier = reading; written = hello };
}

sends_hello : Spliced at_start hello_sent
sends_hello =
    and_on (and_on not_yet (upward (reads hello (b'x' ∷ []) refl refl refl)))
      (upward (writes hello refl refl))

probe-Transparent_example :
    (s : Stream) × ((net (b'd' ∷ []) ≡ inl s) × Transparent raw.bytes s.bytes hello_sent)
probe-Transparent_example =
    probe-Transparent net toy cfg since tls_server (b'd' ∷ []) raw probe at_start hello_sent
      handles_probe dials_dest sends_hello
