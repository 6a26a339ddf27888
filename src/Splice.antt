-- ===== src/Splice.antt =====
-- The splice of two connections: two goroutines of io.Copy, and the closeBoth that each calls behind
-- it. The listeners of reality and xreality hand a probe to the real site by it.
pub mod Transparent
mod Tests
use obfs.Base.{ℕ, ◌≡◌, List, [], ◌∷◌, ◌++◌, Bool, true, false}

-- Where a goroutine stands: before a read, with a chunk to write, behind io.Copy with all of its
-- source or without, and behind closeBoth.
pub data Copier : Type 0 where
  reading : Copier
  writing : List ℕ → Copier
  copied_all : Copier
  broken : Copier
  parted : Copier

-- One direction: what the source will still deliver, and what has been written.
pub record Pipe : Type 0 where
  pub source : List ℕ
  pub copier : Copier
  pub written : List ℕ

abbrev pub pipe : List ℕ → List ℕ → Pipe
pipe source written = record { source = source; copier = reading; written = written }

-- io.Copy reads a chunk and writes it, until a read or a write ends with an error or an EOF. A call
-- on a closed connection fails; a write that fails may have written a part.
pub data Copies (source_open target_open : Bool) (p : Pipe) : Pipe → Type 0 where
  reads :
      (chunk rest : List ℕ)
      → p.copier ≡ reading
      → source_open ≡ true
      → p.source ≡ chunk ++ rest
      → Copies source_open target_open p (record p { source = rest; copier = writing chunk })
  ends :
      p.copier ≡ reading
      → p.source ≡ []
      → Copies source_open target_open p (record p { copier = copied_all })
  fails :
      p.copier ≡ reading
      → source_open ≡ false
      → Copies source_open target_open p (record p { copier = broken })
  writes :
      (chunk : List ℕ)
      → p.copier ≡ writing chunk
      → target_open ≡ true
      → Copies source_open target_open p
          (record p { copier = reading; written = p.written ++ chunk })
  breaks :
      (part rest : List ℕ)
      → p.copier ≡ writing (part ++ rest)
      → Copies source_open target_open p (record p { copier = broken; written = p.written ++ part })

-- `up` is the goroutine that copies from the client, `down` the handler's own.
pub record Splice : Type 0 where
  pub up : Pipe
  pub down : Pipe
  pub client_open : Bool
  pub site_open : Bool

-- Behind the dial: both connections are open, and a prefix may have been sent.
abbrev pub splice : List ℕ → List ℕ → List ℕ → Splice
splice from_client sent from_site = record {
  up = pipe from_client sent;
  down = pipe from_site [];
  client_open = true;
  site_open = true;
}

-- `once.Do(func() { client.Close(); dst.Close() })`; a second call does nothing.
abbrev pub close_both : Splice → Splice
close_both s = record s { client_open = false; site_open = false }

-- io.Copy has returned.
abbrev pub HasCopied : Copier → Type 0
HasCopied reading = ⊥
HasCopied (writing chunk) = ⊥
HasCopied copied_all = Unit {0}
HasCopied broken = Unit {0}
HasCopied parted = ⊥

pub data Splicing (s : Splice) : Splice → Type 0 where
  upward : {p : Pipe} → Copies s.client_open s.site_open s.up p → Splicing s (record s { up = p })
  downward :
      {p : Pipe} → Copies s.site_open s.client_open s.down p → Splicing s (record s { down = p })
  up_parts :
      HasCopied s.up.copier
      → Splicing s (record (close_both s) { up = record s.up { copier = parted } })
  down_parts :
      HasCopied s.down.copier
      → Splicing s (record (close_both s) { down = record s.down { copier = parted } })

pub data Spliced (s : Splice) : Splice → Type 0 where
  not_yet : Spliced s s
  and_on : {t u : Splice} → Spliced s t → Splicing t u → Spliced s u
