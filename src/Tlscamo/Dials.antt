-- ===== src/Tlscamo/Dials.antt =====
-- What a connection of tlscamo's Client and Dialer has presented.
use obfs.Base.{
  ℕ, zero, suc, ◌<◌, ◌≡◌, ◌≢◌, ap, refl, sym, List, [], ◌∷◌, length, ◌∙◌, Bool, true, false, Error,
  ok, ◌⊎◌, inl, inr, arith,
}
use obfs.Act.{Ended, ended_ok, ended_err, Ended-and_then}
use obfs.Link.{Link, connected, answered}
use obfs.Tlscamo.{
  Presets, roll_set, Config, TlsConfig, default_protos, alpn_or_default, tls_config, or_chrome,
  rolled, pick_id, client,
}

-- The fingerprint is one of the list.
abbrev pub IsOneOf : List ℕ → List (List ℕ) → Type 0
IsOneOf id [] = ⊥
IsOneOf id (x ∷ xs) = (id ≡ x) ⊎ IsOneOf id xs

rolled-OneOf :
    (ids : List (List ℕ)) (i : ℕ)
    → i < length ids
    → (id : List ℕ) × ((rolled ids i ≡ ok id) × IsOneOf id ids)
unfolding rolled
rolled-OneOf [] i h = absurd (omega arith)
rolled-OneOf (id ∷ ids) zero h = (id, (refl, inl refl))
rolled-OneOf (id ∷ ids) (suc i) h =
    let (x, (e, m)) = rolled-OneOf ids i (omega arith) in (x, (e, inr m))

-- Config's fingerprint or Chrome, or with Roll one of the four browsers.
abbrev pub IsChosen : Presets → Config → List ℕ → Type 0
IsChosen p cfg id =
    ((cfg.roll ≡ true) × IsOneOf id (roll_set p))
    ⊎ ((cfg.roll ≡ false) × ((id ≡ p.chrome) ⊎ ((cfg.fingerprint ≢ []) × (id ≡ cfg.fingerprint))))

-- The name for the server: the configured one, or else the address's host, or none.
abbrev pub NameFor : List ℕ → List ℕ ⊎ Error → List ℕ → Type 0
NameFor configured host name =
    ((configured ≢ []) × (name ≡ configured))
    ⊎ ((configured ≡ [])
        × (((h : List ℕ) × ((host ≡ inl h) × (name ≡ h)))
            ⊎ (((e : Error) × (host ≡ inr e)) × (name ≡ []))))

-- What Config says of a handshake, once the server's name is known.
abbrev pub Settings : Config → (List ℕ → Type 0) → TlsConfig → Type 0
Settings cfg named t =
    named t.server_name
    × (t.insecure_skip_verify ≡ cfg.insecure_skip_verify)
    × (t.encrypted_client_hello_config_list ≡ cfg.ech_config_list)
    × (((cfg.next_protos ≡ []) × (t.next_protos ≡ default_protos))
        ⊎ ((cfg.next_protos ≢ []) × (t.next_protos ≡ cfg.next_protos)))

alpn_or_default-cases :
    (ps : List (List ℕ))
    → ((ps ≡ []) × (alpn_or_default ps ≡ default_protos)) ⊎ ((ps ≢ []) × (alpn_or_default ps ≡ ps))
unfolding alpn_or_default
alpn_or_default-cases [] = inl (refl, refl)
alpn_or_default-cases (p ∷ ps) = inr ((λ e. cc), refl)

tls_config-Settings :
    (cfg : Config) (named : List ℕ → Type 0)
    → named cfg.server_name
    → Settings cfg named (tls_config cfg)
unfolding tls_config
tls_config-Settings cfg named n = (n, refl, refl, alpn_or_default-cases cfg.next_protos)

module _ {W T : Type 0} (p : Presets) (intn : ℕ → W → ℕ × W)
    (handshake : List ℕ → TlsConfig → W → (T ⊎ Error) × W) where
  -- The connection is that of a handshake with such a fingerprint and with such settings.
  abbrev pub HasPresented : Config → (List ℕ → Type 0) → T → Type 0
  HasPresented cfg named conn =
      (id : List ℕ) × ((t : TlsConfig) × ((w : W) × (IsChosen p cfg id
            × (Settings cfg named t × ((handshake id t w).0 ≡ inl conn)))))

  abbrev pub IsBelow : Type 0
  IsBelow = (n : ℕ) (w : W) → 0 < n → (intn n w).0 < n

  pick_id-Ended :
      (cfg : Config) (roll : Bool) (fingerprint : List ℕ) (s : Link W)
      → IsBelow
      → cfg.roll ≡ roll
      → cfg.fingerprint ≡ fingerprint
      → s.socket ≡ connected
      → Ended
          (λ id s'. IsChosen p cfg id × (s'.socket ≡ connected))
          (λ _. Unit {0})
          (pick_id p intn handshake roll fingerprint s)
  unfolding pick_id or_chrome roll_set
  pick_id-Ended cfg false [] s below r f k = ended_ok (inr (r, inl refl), k)
  pick_id-Ended cfg false (b ∷ bs) s below r f k =
      ended_ok (inr (r, inr ((λ e. let bad : b ∷ bs ≡ [] = sym f ∙ e in absurd (cc)), sym f)), k)
  pick_id-Ended cfg true fingerprint s below r f k =
      let (id, (e, m)) =
        rolled-OneOf (roll_set p) (intn 4 s.world).0 (below 4 s.world (omega arith)) in
      rw e (ended_ok (inl (r, m), k))

  pub client-Ended :
      (cfg : Config) (named : List ℕ → Type 0) (s : Link W)
      → IsBelow
      → named cfg.server_name
      → s.socket ≡ connected
      → Ended
          (λ conn s'. HasPresented cfg named conn × (s'.socket ≡ connected))
          (λ _. Unit {0})
          (client p intn handshake cfg s)
  unfolding client
  client-Ended cfg named s below n k =
      Ended-and_then (pick_id-Ended cfg cfg.roll cfg.fingerprint s below refl refl k)
        (λ id s' h. shaken-Ended id s' h.0 h.1 (handshake id (tls_config cfg) s'.world) refl)
    where
      shaken-Ended :
          (id : List ℕ) (s' : Link W)
          → IsChosen p cfg id
          → s'.socket ≡ connected
          → (r : (T ⊎ Error) × W) → handshake id (tls_config cfg) s'.world ≡ r
          → Ended
              (λ conn s''. HasPresented cfg named conn × (s''.socket ≡ connected))
              (λ _. Unit {0})
              (answered r s')
      shaken-Ended id s' c k' (inl conn, w) e = ended_ok (
        (id, (tls_config cfg, (s'.world, (c, (tls_config-Settings cfg named n, ap (λ x. x.0) e))))),
        k',
      )
      shaken-Ended id s' c k' (inr x, w) e = ended_err tt
