-- ===== src/Xreality/Listener/Passthrough/Probes.antt =====
-- A probe talks to the real site.
use obfs.Base.{ℕ, ◌≡◌, refl, subst, List, [], ◌∷◌, true, Option, ℤ, ◌⊎◌, inl, inr, Error, ok}
use obfs.Wire.{Stream}
use obfs.Splice.{Splice, splice, Spliced}
use obfs.Splice.Transparent.{Transparent, splice-Transparent}
use obfs.Xreality.Crypto.{Crypto}
use obfs.Xreality.Peek.{PrefixConn, pending}
use obfs.Xreality.Channel.{TlsConn}
use obfs.Xreality.Listener.{ServerConfig, passthrough, handle}
use obfs.Xreality.Listener.Ways.{Way, handle-Way}
use obfs.Xreality.Listener.Passthrough.{Passed, hung_up, spliced_to, pass_dialled, pass_to_dest}

module _ (dial : List ℕ → Stream ⊎ Error) where
  -- The site was dialled, and the splice begins with nothing sent.
  abbrev IsDialled : List ℕ → PrefixConn → Passed × Option Error → Type 0
  IsDialled dest client (hung_up, e) = Unit {0}
  IsDialled dest client (spliced_to s, e) =
      (site : Stream) × ((dial dest ≡ inl site) × (s ≡ splice (pending client) [] site.bytes))

  pass_dialled-IsDialled :
      (dest : List ℕ) (client : PrefixConn) (r : Stream ⊎ Error)
      → dial dest ≡ r
      → IsDialled dest client (pass_dialled dial client r)
  unfolding pass_dialled
  pass_dialled-IsDialled dest client (inl site) h = (site, (h, refl))
  pass_dialled-IsDialled dest client (inr e) h = tt

  pass_to_dest-IsDialled :
      (dest : List ℕ) (client : PrefixConn) → IsDialled dest client (pass_to_dest dial dest client)
  unfolding pass_to_dest
  pass_to_dest-IsDialled [] client = tt
  pass_to_dest-IsDialled (b ∷ dest) client =
      pass_dialled-IsDialled (b ∷ dest) client (dial (b ∷ dest)) refl

  -- A connection that handle hands to passthrough, and whose splice has begun: Dest was dialled, and
  -- in every interleaving of the splice, Dest has been sent a front of the raw bytes, the peeked
  -- ClientHello first, and the probe a front of what Dest delivers; nothing is lost between them
  -- before a call fails, and the two connections are closed together.
  pub probe-Transparent :
      (c : Crypto) (cfg : ServerConfig) (since : ℕ → ℤ) (tls_server : PrefixConn → TlsConn ⊎ Error)
      (dest : List ℕ) (raw : Stream) (client : PrefixConn) (s t : Splice)
      → handle c cfg since tls_server true raw ≡ ok (passthrough client)
      → (pass_to_dest dial dest client).0 ≡ spliced_to s
      → Spliced s t
      → (site : Stream) × ((dial dest ≡ inl site) × Transparent raw.bytes site.bytes t)
  probe-Transparent c cfg since tls_server dest raw client s t h p x =
      let kept : pending client ≡ raw.bytes =
        subst (λ o. Way c cfg since tls_server true raw.bytes o) h
          (handle-Way c cfg since tls_server true raw) in
      let d : IsDialled dest client (spliced_to s, (pass_to_dest dial dest client).1) =
        subst (λ q. IsDialled dest client (q, (pass_to_dest dial dest client).1)) p
          (pass_to_dest-IsDialled dest client) in
      (
        d.0,
        (
          d.1.0,
          subst (λ l. Transparent l d.0.bytes t) kept
              (splice-Transparent (pending client) [] d.0.bytes (subst (λ a. Spliced a t) d.1.1 x)),
        ),
      )
