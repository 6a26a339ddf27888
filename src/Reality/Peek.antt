-- ===== src/Reality/Peek.antt =====
-- peekClientHelloSNI and parseClientHelloSNI of reality.go, over a reader that records.
pub mod Keeps
use obfs.Base.{
  ℕ, List, [], ◌++◌, take, ltb, ◌==◌, not, ◌||◌, if◌then◌else◌, Outcome, err, index, uint16_at,
  not_tls, bad_hello,
}
use obfs.Act.{Act, ◌>>=◌}
use obfs.Wire.{Stream, read_full}
use obfs.Reality.Sni.{sni_from_client_hello}

-- `io.TeeReader(r, &buf)`
pub record Tee : Type 0 where
  pub buf : List ℕ
  pub reader : Stream

-- `io.ReadFull` on it.
tee_read : ℕ → Act Tee (List ℕ)
tee_read n t =
    let (r, s) = read_full n t.reader in
    (r, record { buf = t.buf ++ take n t.reader.bytes; reader = s })

pure : {A : Type 0} → Outcome A → Act Tee A
pure o t = (o, t)

parse_body : ℕ → Act Tee (List ℕ)
unfolding tee_read pure
parse_body rec_len =
    if ltb rec_len 4 || ltb 16384 rec_len
    then pure (err bad_hello)
    else do body ← tee_read rec_len; pure (sni_from_client_hello body)

parse_header : List ℕ → Act Tee (List ℕ)
unfolding parse_body pure
parse_header hdr = do
  kind ← pure (index hdr 0)
  if not (kind == 0x16)
      then pure (err not_tls)
      else do rec_len ← pure (uint16_at hdr 3); parse_body rec_len

parse_client_hello_sni : Act Tee (List ℕ)
unfolding tee_read parse_header
parse_client_hello_sni = do hdr ← tee_read 5; parse_header hdr

-- The SNI or an error, and what was consumed with what the connection will still deliver.
unfoldable pub peek_client_hello_sni : Stream → Outcome (List ℕ) × Tee
unfolding parse_client_hello_sni
peek_client_hello_sni s = parse_client_hello_sni (record { buf = []; reader = s })
