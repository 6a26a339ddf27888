-- ===== src/Reality/Listener/Splices/Tests.antt =====
-- A probe with another name, whose ClientHello goes on to the passthrough site.
use obfs.Base.{refl, sym, [], ◌∷◌, eof, append-nil}
use obfs.Wire.Laws.{stream}
use obfs.Hello.{handshake_bytes}
use obfs.Splice.{Splice, splice, reading, reads, writes, upward, Spliced, not_yet, and_on}
use obfs.Reality.Tests.{hello}
use obfs.Reality.Listener.{Verdict, spliced}
use obfs.Reality.Listener.Tests.{cfg, equal_fold, raw, tls_server, net, passes_on}
use obfs.Reality.Listener.Splices.Probes.{Probed, handle-Probed}

abbrev to_site : Verdict
to_site =
    spliced
      (record {
        prefix = 0x16 ∷ 3 ∷ 1 ∷ 0 ∷ 70 ∷ handshake_bytes hello;
        conn = stream (b'!' ∷ []) eof;
      })
      (record { sent = []; faults = [] })

abbrev at_start : Splice
at_start = splice raw.bytes [] (b'o' ∷ [])

abbrev all_sent : Splice
all_sent = record at_start { up = record { source = []; copier = reading; written = raw.bytes } }

sends_all : Spliced at_start all_sent
sends_all =
    and_on (and_on not_yet (upward (reads raw.bytes [] refl refl (sym (append-nil raw.bytes)))))
      (upward (writes raw.bytes refl refl))

handle-Probed_example : Probed (cfg (b'c' ∷ [])) equal_fold tls_server net raw (b'o' ∷ []) all_sent
handle-Probed_example =
    handle-Probed (cfg (b'c' ∷ [])) equal_fold tls_server net raw (b'o' ∷ []) to_site at_start
      all_sent passes_on refl sends_all
