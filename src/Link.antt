-- ===== src/Link.antt =====
-- A connection that a client dials, and the calls of a TLS library over it. The dialers of tlscamo,
-- xreality, xrayreality and reality stand on it.
use obfs.Base.{ℤ, Option, none, some, Error, Outcome, ok, err, from_call, ◌⊎◌, ◌≡◌, refl}
use obfs.Act.{Act, on_error, ◌>>=◌, Ended, ended_ok, ended_err, Ended-and_then, Ended-cleaned}

pub data Socket : Type 0 where
  undialled connected hung_up : Socket

-- `world` is the state of the network and of the library. The deadline counts from when it is set.
pub record Link (W : Type 0) : Type 0 where
  pub world : W
  pub socket : Socket
  pub deadline : Option ℤ

abbrev pub fresh_link : {W : Type 0} → W → Link W
fresh_link w = record { world = w; socket = undialled; deadline = none }

-- `raw.Close()`, also by the Close of a TLS connection over it.
abbrev pub hang_up : {W : Type 0} → Link W → Link W
hang_up s = record s { socket = hung_up }

-- No connection was made, or it is closed.
abbrev pub IsGone : Socket → Type 0
IsGone undialled = Unit {0}
IsGone connected = ⊥
IsGone hung_up = Unit {0}

module _ {W : Type 0} where
  abbrev pub answered : {A : Type 0} → (A ⊎ Error) × W → Act (Link W) A
  answered (r, w) s = (from_call r, record s { world = w })

  abbrev pub net_call : {A : Type 0} → (W → (A ⊎ Error) × W) → Act (Link W) A
  net_call f s = answered (f s.world) s

  abbrev pub settle : {A : Type 0} → Outcome A → Act (Link W) A
  settle o s = (o, s)

  abbrev pub set_deadline : Option ℤ → Act (Link W) (Unit {0})
  set_deadline d s = (ok tt, record s { deadline = d })

  dialled : Option Error × W → Act (Link W) (Unit {0})
  dialled (none, w) s = (ok tt, record s { world = w; socket = connected })
  dialled (some e, w) s = (err e, record s { world = w })

  -- `net.Dial(network, addr)`
  unfoldable pub net_dial : (W → Option Error × W) → Act (Link W) (Unit {0})
  unfolding dialled
  net_dial dial s = dialled (dial s.world) s

  -- What each Dialer returns: dial, then run the client, and close the connection if it fails.
  unfoldable pub dial_with : {A : Type 0} → (W → Option Error × W) → Act (Link W) A → Act (Link W) A
  dial_with dial client = do _ ← net_dial dial; on_error hang_up client

  pub net_dial-Ended :
      (dial : W → Option Error × W) (w : W)
      → Ended (λ _ s. s.socket ≡ connected) (λ s. IsGone s.socket) (net_dial dial (fresh_link w))
  unfolding net_dial dialled
  net_dial-Ended dial w = dialled-Ended (dial w)
    where
      dialled-Ended :
          (r : Option Error × W)
          → Ended (λ _ s. s.socket ≡ connected) (λ s. IsGone s.socket) (dialled r (fresh_link w))
      dialled-Ended (none, w') = ended_ok refl
      dialled-Ended (some e, w') = ended_err tt

  -- A client that returns leaves no connection open behind an error.
  pub dial_with-Ended :
      {A : Type 0} (Good : A → Link W → Type 0) (dial : W → Option Error × W)
      (client : Act (Link W) A) (w : W)
      → ((s : Link W) → s.socket ≡ connected → Ended Good (λ _. Unit {0}) (client s))
      → Ended Good (λ s. IsGone s.socket) (dial_with dial client (fresh_link w))
  unfolding dial_with
  dial_with-Ended Good dial client w h =
      Ended-and_then (net_dial-Ended dial w) (λ _ s c. Ended-cleaned hang_up (h s c) (λ _ _. tt))
