-- ===== src/Xreality/Peek.antt =====
-- xreality/listener.go: peekRecord and prefixConn.
pub mod Replay
pub mod Whole
use obfs.Base.{
  ℕ, ◌+◌, ◌≤◌, ◌≡◌, List, [], ◌∷◌, ◌++◌, length, take, drop, ltb, ◌==◌, not, ◌||◌, if◌then◌else◌,
  Option, none, some,
}
use obfs.Base.{
  Error, Outcome, ok, err, panic, stuck, ◌>>=◌, index, uint16_at, not_tls, bad_hello, ◌⊎◌, inl, inr,
}
use obfs.Wire.{Stream, read_full}

-- What peekRecord returns, and what it leaves on the connection.
pub record Peeked : Type 0 where
  pub record_read : List ℕ
  pub error : Option Error
  pub rest : Stream

-- `io.ReadFull(tee, buf)` and the bytes that the tee has recorded meanwhile.
tee_read_full : ℕ → Stream → Outcome (List ℕ) × (List ℕ × Stream)
tee_read_full n s = let (r, s') = read_full n s in (r, (take n s.bytes, s'))

peeked_body : List ℕ → Outcome (List ℕ) × (List ℕ × Stream) → Outcome Peeked
peeked_body buf (ok body, (more, s)) =
    ok (record { record_read = buf ++ more; error = none; rest = s })
peeked_body buf (err e, (more, s)) =
    ok (record { record_read = buf ++ more; error = some e; rest = s })
peeked_body buf (panic, _) = panic
peeked_body buf (stuck, _) = stuck

-- `n < 4 || n > 1<<14`
peek_body : List ℕ → ℕ → Stream → Outcome Peeked
unfolding tee_read_full peeked_body
peek_body buf n s =
    if ltb n 4 || ltb 16384 n
    then ok (record { record_read = buf; error = some bad_hello; rest = s })
    else peeked_body buf (tee_read_full n s)

peek_header : Outcome (List ℕ) × (List ℕ × Stream) → Outcome Peeked
unfolding peek_body
peek_header (ok hdr, (buf, s)) = do
  kind ← index hdr 0
  if not (kind == 0x16)
      then ok (record { record_read = buf; error = some not_tls; rest = s })
      else do n ← uint16_at hdr 3; peek_body buf n s
peek_header (err e, (buf, s)) = ok (record { record_read = buf; error = some e; rest = s })
peek_header (panic, _) = panic
peek_header (stuck, _) = stuck

unfoldable pub peek_record : Stream → Outcome Peeked
unfolding tee_read_full peek_header
peek_record s = peek_header (tee_read_full 5 s)

-- prefixConn, with what the connection will still deliver.
pub record PrefixConn : Type 0 where
  pub prefix : List ℕ
  pub conn : Stream

abbrev pub pending : PrefixConn → List ℕ
pending c = c.prefix ++ c.conn.bytes

-- `Conn.Read`: some of the bytes, as the transport pleases, or an error.
pub record BaseRead : Type 0 where
  pub read : ℕ → Stream → (List ℕ ⊎ Error) × Stream
  pub keeps_order :
      (room : ℕ) (s : Stream) (b : List ℕ)
      → (read room s).0 ≡ inl b
      → b ++ (read room s).1.bytes ≡ s.bytes
  pub fits : (room : ℕ) (s : Stream) (b : List ℕ) → (read room s).0 ≡ inl b → length b ≤ room
  pub keeps_on_error :
      (room : ℕ) (s : Stream) (e : Error)
      → (read room s).0 ≡ inr e
      → (read room s).1.bytes ≡ s.bytes

module _ (base : BaseRead) where
  read_past : ℕ → List ℕ → Stream → (List ℕ ⊎ Error) × PrefixConn
  read_past room (b ∷ bs) s =
      (inl (take room (b ∷ bs)), record { prefix = drop room (b ∷ bs); conn = s })
  read_past room [] s = let (r, s') = base.read room s in (r, record { prefix = []; conn = s' })

  unfoldable pub prefix_read : ℕ → PrefixConn → (List ℕ ⊎ Error) × PrefixConn
  unfolding read_past
  prefix_read room c = read_past room c.prefix c.conn

  -- The bytes of reads with buffers of these sizes, in order; an error adds nothing.
  unfoldable pub read_each : List ℕ → PrefixConn → List ℕ × PrefixConn
  read_each [] c = ([], c)
  read_each (room ∷ rooms) c =
      let (r, c') = prefix_read room c in
      let (more, c'') = read_each rooms c' in (elim r [ inl b ↦ b ++ more | inr e ↦ more ], c'')
