-- ===== src/Reality/Listener/Splices/Probes.antt =====
-- A probe talks to the passthrough site, or to the fallback behind TLS.
use obfs.Base.{
  ℕ, ◌≡◌, ◌∙◌, ap, sym, subst, List, ◌++◌, append_assoc, Bool, true, some, ◌⊎◌, inl, inr, Error, ok,
  arith,
}
use obfs.Wire.{Stream, Sink}
use obfs.Splice.{Splice, Spliced}
use obfs.Splice.Transparent.{Transparent, splice-Transparent}
use obfs.Reality.Listener.{
  ServerConfig, Replayed, Verdict, dropped, spliced, proxied, tunnelled, handle, pending,
}
use obfs.Reality.Listener.Ways.{Way, Handled, handle-Handled, Terminated}
use obfs.Reality.Listener.Splices.{splice_of}

some-injective : {A : Type 0} {a b : A} → some a ≡ some b → a ≡ b
some-injective h = ground arith

module _ (cfg : ServerConfig) (equal_fold : List ℕ → List ℕ → Bool)
    (tls_server : Replayed → Stream ⊎ Error) (dial : List ℕ → Sink ⊎ Error) where
  -- Passthrough was dialled and is sent the raw bytes; or the TLS server has made a connection from
  -- them, and Fallback was dialled and is sent the bytes of that.
  abbrev pub Probed : Stream → List ℕ → Splice → Type 0
  Probed raw site t =
      ((fresh : Sink) × ((dial cfg.passthrough ≡ inl fresh)
          × Transparent (fresh.sent ++ raw.bytes) site t))
      ⊎ ((fresh : Sink) × ((conn : Stream) × ((dial cfg.fallback ≡ inl fresh)
              × (Terminated cfg equal_fold tls_server dial true raw conn
                  × Transparent (fresh.sent ++ conn.bytes) site t))))

  Way-Probed :
      (raw : Stream) (site : List ℕ) (v : Verdict) (s t : Splice)
      → Way cfg equal_fold tls_server dial true raw v
      → splice_of site v ≡ some s
      → Spliced s t
      → Probed raw site t
  Way-Probed raw site dropped s t w e x = absurd (cc)
  Way-Probed raw site (tunnelled client) s t w e x = absurd (cc)
  Way-Probed raw site (spliced client upstream) s t (kept, (sni, (p, (f, d)))) e x = inl (
    upstream,
    (
      d,
      subst (λ l. Transparent (upstream.sent ++ l) site t) kept
          (splice-Transparent (pending client) upstream.sent site
            (subst (λ a. Spliced a t) (sym (some-injective e)) x)),
    ),
  )
  Way-Probed raw site (proxied client upstream) s t
        (conn, (made, (fresh, (d, (consumed, (sent, all)))))) e x =
      inr (
        fresh,
        (
          conn,
          (
            d,
            (
              made,
              subst (λ l. Transparent l site t)
                  (ap (λ l. l ++ client.bytes) sent
                    ∙ (append_assoc fresh.sent consumed client.bytes
                        ∙ ap (λ l. fresh.sent ++ l) all))
                  (splice-Transparent client.bytes upstream.sent site
                    (subst (λ a. Spliced a t) (sym (some-injective e)) x)),
            ),
          ),
        ),
      )

  -- A raw connection that handle splices. Passthrough was dialled, and is sent a front of the raw
  -- bytes; or the TLS server has made a connection of all of them, and Fallback was dialled, and is
  -- sent a front of what that connection carries, the bytes that were read as a token first. The
  -- client is sent a front of what the site delivers; nothing is lost between them before a call
  -- fails; and the two connections are closed together.
  pub handle-Probed :
      (raw : Stream) (site : List ℕ) (v : Verdict) (s t : Splice)
      → handle cfg equal_fold tls_server dial true raw ≡ ok v
      → splice_of site v ≡ some s
      → Spliced s t
      → Probed raw site t
  handle-Probed raw site v s t h e x =
      Way-Probed raw site v s t
        (subst (λ o. Handled cfg equal_fold tls_server dial true raw o) h
          (handle-Handled cfg equal_fold tls_server dial true raw))
        e x
