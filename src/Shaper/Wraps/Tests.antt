-- ===== src/Shaper/Wraps/Tests.antt =====
-- Two peers with cells of six bytes.
use obfs.Base.{ℕ, ◌≡◌, refl, pos, replicate, eof, ok, ◌⊎◌, inl, Error, arith}
use obfs.Fill.{zero_filler}
use obfs.Shaper.{new_shaped_conn}
use obfs.Shaper.Session.{messages, send, receive, reader_of}
use obfs.Shaper.Tests.{clockwork, numbers, plain_policy, six, fresh, events}
use obfs.Shaper.Wraps.{shaped, wrap, dialer, accept, listener}
use obfs.Shaper.Wraps.Peers.{dialer-accept}

abbrev net : ℕ → (ℕ ⊎ Error) × ℕ
net v = (inl v, v)

dials_six : (dialer numbers zero_filler net (plain_policy (pos 6)) 1).0 ≡ ok (shaped 1 six)
unfolding dialer wrap new_shaped_conn
dials_six = refl

accepts_six :
    (accept numbers zero_filler (listener net (plain_policy (pos 6))) 2).0 ≡ ok (shaped 2 six)
unfolding accept wrap new_shaped_conn
accepts_six = refl

dialer-accept_example :
    (receive six (replicate 8 3) (reader_of (send clockwork six events fresh).1.sink.sent eof)).0
    ≡ messages events
dialer-accept_example =
    dialer-accept numbers zero_filler clockwork (plain_policy (pos 6)) net net 1 2 1 2 six six
      (omega arith) dials_six accepts_six refl events fresh (replicate 8 3) eof refl refl
      (omega arith) (omega arith)
