-- ===== src/Wire.antt =====
-- The base connection under a shaped one, as its two directions.
-- Reading: what `base.Read` will deliver, in order, and the error that it ends with. Writing: the
-- bytes that the wire has taken, and what the environment decides about the writes to come.
pub mod Laws
use obfs.Base.{ℕ, ◌≡◌, List, [], ◌∷◌, ◌++◌, Option, none, some, leb, if◌then◌else◌}
use obfs.Base.{length, take, drop, Error, eof, unexpected_eof, Outcome, ok, err}

pub record Stream : Type 0 where
  pub bytes : List ℕ
  pub fail : Error

-- The error of a read that ends early: `io.ReadFull` turns an EOF after the first byte into
-- `io.ErrUnexpectedEOF`, and passes every other error on.
short_error : List ℕ → Error → Error
short_error (b ∷ bs) eof = unexpected_eof
short_error _ e = e

-- `io.ReadFull(base, buf)` with `len(buf)` equal to `n`.
unfoldable pub read_full : ℕ → Stream → Outcome (List ℕ) × Stream
unfolding short_error
read_full n s =
    if leb n (length s.bytes)
    then (ok (take n s.bytes), record s { bytes = drop n s.bytes })
    else (err (short_error s.bytes s.fail), record s { bytes = [] })

-- `faults` holds the result of each write to come: `none` where it takes all of its buffer, and
-- `some (k, e)` where it takes `k` bytes at most and fails by `e`. Behind its end all succeed.
pub record Sink : Type 0 where
  pub sent : List ℕ
  pub faults : List (Option (ℕ × Error))

write_result : List (Option (ℕ × Error)) → List ℕ → Sink → Option Error × Sink
write_result [] buf s = (none, record s { sent = s.sent ++ buf })
write_result (none ∷ fs) buf s = (none, record { sent = s.sent ++ buf; faults = fs })
write_result (some (k, e) ∷ fs) buf s =
    (some e, record { sent = s.sent ++ take k buf; faults = fs })

-- `_, err := base.Write(buf)`.
unfoldable pub base_write : List ℕ → Sink → Option Error × Sink
unfolding write_result
base_write buf s = write_result s.faults buf s
