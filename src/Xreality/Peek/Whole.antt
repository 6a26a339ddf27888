-- ===== src/Xreality/Peek/Whole.antt =====
-- A connection that begins with a whole handshake record: peekRecord takes that record.
use obfs.Base.{
  ℕ, ◌≤◌, ◌≡◌, refl, List, ◌∷◌, ◌++◌, length, ltb, false, none, Error, ok, arith, put_uint16,
  take-append_self,
}
use obfs.Base.{le→ltb, join16-put}
use obfs.Wire.Laws.{stream, read_full-append}
use obfs.Hello.{ClientHello, handshake_bytes, record_bytes}
use obfs.Xreality.Parse.Record.{handshake_bytes_four}
use obfs.Xreality.Peek.{tee_read_full, peeked_body, peek_body, peek_header, peek_record}

tee_read_full-append :
    (xs ys : List ℕ) (e : Error)
    → tee_read_full (length xs) (stream (xs ++ ys) e) ≡ (ok xs, (xs, stream ys e))
unfolding tee_read_full
tee_read_full-append xs ys e =
    rw (read_full-append (length xs) xs ys e refl, take-append_self xs ys) refl

peek_body-whole :
    (buf hs rest : List ℕ) (e : Error)
    → 4 ≤ length hs
    → length hs ≤ 16384
    → peek_body buf (length hs) (stream (hs ++ rest) e)
      ≡ ok (record { record_read = buf ++ hs; error = none; rest = stream rest e })
unfolding peek_body peeked_body
peek_body-whole buf hs rest e four fits =
    let low : ltb (length hs) 4 ≡ false = le→ltb _ _ four in
    let high : ltb 16384 (length hs) ≡ false = le→ltb _ _ fits in
    rw (low, high, tee_read_full-append hs rest e) refl

-- The record is taken whole, and nothing behind it.
pub peek_record-whole :
    (major minor : ℕ) (h : ClientHello) (rest : List ℕ) (e : Error)
    → length (handshake_bytes h) ≤ 16384
    → peek_record (stream (record_bytes major minor h ++ rest) e)
      ≡ ok (record { record_read = record_bytes major minor h; error = none; rest = stream rest e })
unfolding peek_record peek_header record_bytes
peek_record-whole major minor h rest e fits =
    let hs : List ℕ = handshake_bytes h in
    let header : List ℕ = 0x16 ∷ major ∷ minor ∷ put_uint16 (length hs) in
    rw (tee_read_full-append header (hs ++ rest) e, join16-put (length hs) (omega arith))
      (peek_body-whole header hs rest e (handshake_bytes_four h) fits)
