-- ===== src/Fullstack.antt =====
-- examples/fullstack/main.go: what its two ends do with their shaped connections. The TLS connection
-- between them is a stream of bytes; the dialing, the certificate and the output are left out.
pub mod Echo
mod Tests
use obfs.Base.{
  ℕ, zero, suc, ◌-◌, List, [], ◌∷◌, ◌++◌, length, pos, none, some, Error, Outcome, ok, err, panic,
  stuck, ◌>>=◌,
}
use obfs.Shaper.{Policy, Shaped}
use obfs.Shaper.Read.{Reader, read}
use obfs.Shaper.Write.{Runtime, Writer, write_direct, emit}

-- Cells of 512 bytes, and at most 8 cover cells in the first half second.
abbrev pub shaping : {W F : Type 0} → Policy W F
shaping = record {
  cell_size = pos 512;
  jitter = pos 0;
  cover_every = pos 0;
  fill = none;
  size_sampler = none;
  delay_sampler = none;
  front = some (record { window = pos 500000000; max_count = pos 8 });
  paced = none;
}

-- How `io.Copy` ends: by an error of the source, an EOF as well, or of a write.
pub data CopyEnd : Type 0 where
  source_ended : Error → CopyEnd
  write_failed : Error → CopyEnd
  gone_wrong : CopyEnd

module _ {W F : Type 0} (rt : Runtime W) (c : Shaped W F) where
  written_back : (Writer W → CopyEnd × Writer W) → Outcome ℕ × Writer W → CopyEnd × Writer W
  written_back again (ok n, st) = again st
  written_back again (err e, st) = (write_failed e, st)
  written_back again (panic, st) = (gone_wrong, st)
  written_back again (stuck, st) = (gone_wrong, st)

  copied_back :
      (Reader → Writer W → CopyEnd × Writer W)
      → Outcome (List ℕ) × Reader
      → Writer W
      → CopyEnd × Writer W
  unfolding written_back
  copied_back again (ok [], r) st = again r st
  copied_back again (ok (b ∷ bs), r) st = written_back (again r) (write_direct rt c (b ∷ bs) st)
  copied_back again (err e, r) st = (source_ended e, st)
  copied_back again (panic, r) st = (gone_wrong, st)
  copied_back again (stuck, r) st = (gone_wrong, st)

  -- Cover cells of frontLoop, which runs beside the application.
  unfoldable pub covered : ℕ → Writer W → Writer W
  covered zero st = st
  covered (suc k) st = covered k (emit rt c st)

  -- `io.Copy(shaped, shaped)`, with its buffer of 32 KiB: each chunk that a Read delivers is written
  -- back. Each round takes a byte at least, which bounds the fuel. `covers n` is the number of cover
  -- cells that frontLoop sends in the round with fuel `n`, before its write or the end.
  unfoldable pub echo : (ℕ → ℕ) → ℕ → Reader → Writer W → CopyEnd × Writer W
  unfolding copied_back covered
  echo covers zero r st = (gone_wrong, st)
  echo covers (suc n) r st = copied_back (echo covers n) (read c 32768 r) (covered (covers n) st)

module _ {W F : Type 0} (c : Shaped W F) where
  read_on : (ℕ → Reader → Outcome (List ℕ)) → ℕ → Outcome (List ℕ) × Reader → Outcome (List ℕ)
  read_on again room (ok bs, r) = do more ← again (room - length bs) r; ok (bs ++ more)
  read_on again room (err e, r) = err e
  read_on again room (panic, r) = panic
  read_on again room (stuck, r) = stuck

  -- `io.ReadFull(shaped, buf)` with `len(buf)` equal to `room`.
  unfoldable pub read_whole : ℕ → ℕ → Reader → Outcome (List ℕ)
  unfolding read_on
  read_whole zero room r = stuck
  read_whole (suc n) zero r = ok []
  read_whole (suc n) (suc room) r = read_on (read_whole n) (suc room) (read c (suc room) r)
