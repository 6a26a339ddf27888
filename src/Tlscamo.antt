-- ===== src/Tlscamo.antt =====
-- tlscamo/tlscamo.go: Client and Dialer, over uTLS as a parameter.
pub mod Dials
pub mod Tests
use obfs.Base.{
  ℕ, zero, suc, List, [], ◌∷◌, Bool, true, false, if◌then◌else◌, Option, none, some, Error, Outcome,
  ok, panic, ◌⊎◌, inl, inr,
}
use obfs.Act.{Act, ◌>>=◌}
use obfs.Link.{Link, net_call, settle, dial_with, fresh_link}

-- A utls.ClientHelloID, by its Client; "" is the empty list.
pub record Presets : Type 0 where
  pub chrome : List ℕ
  pub firefox : List ℕ
  pub safari : List ℕ
  pub edge : List ℕ

unfoldable pub roll_set : Presets → List (List ℕ)
roll_set p = p.chrome ∷ p.firefox ∷ p.safari ∷ p.edge ∷ []

-- Config, but for RootCAs, which goes to uTLS as it is.
pub record Config : Type 0 where
  pub server_name : List ℕ
  pub fingerprint : List ℕ
  pub next_protos : List (List ℕ)
  pub insecure_skip_verify : Bool
  pub roll : Bool
  pub ech_config_list : List ℕ

-- utls.Config, as far as Client sets it.
pub record TlsConfig : Type 0 where
  pub server_name : List ℕ
  pub insecure_skip_verify : Bool
  pub next_protos : List (List ℕ)
  pub encrypted_client_hello_config_list : List ℕ

abbrev pub default_protos : List (List ℕ)
default_protos =
    (b'h' ∷ b'2' ∷ []) ∷ (b'h' ∷ b't' ∷ b't' ∷ b'p' ∷ b'/' ∷ b'1' ∷ b'.' ∷ b'1' ∷ []) ∷ []

unfoldable pub alpn_or_default : List (List ℕ) → List (List ℕ)
alpn_or_default [] = default_protos
alpn_or_default (p ∷ ps) = p ∷ ps

unfoldable pub tls_config : Config → TlsConfig
unfolding alpn_or_default
tls_config cfg = record {
  server_name = cfg.server_name;
  insecure_skip_verify = cfg.insecure_skip_verify;
  next_protos = alpn_or_default cfg.next_protos;
  encrypted_client_hello_config_list = cfg.ech_config_list;
}

or_chrome : Presets → List ℕ → List ℕ
or_chrome p [] = p.chrome
or_chrome p (b ∷ bs) = b ∷ bs

-- `rollSet[i]`
rolled : List (List ℕ) → ℕ → Outcome (List ℕ)
rolled [] i = panic
rolled (id ∷ ids) zero = ok id
rolled (id ∷ ids) (suc i) = rolled ids i

-- Dialer: `if cfg.ServerName == ""`, with what net.SplitHostPort says of the address.
derived_name : List ℕ → List ℕ ⊎ Error → List ℕ
derived_name [] (inl host) = host
derived_name [] (inr e) = []
derived_name (b ∷ bs) _ = b ∷ bs

unfoldable pub with_server_name : (List ℕ → List ℕ ⊎ Error) → List ℕ → Config → Config
unfolding derived_name
with_server_name split_host addr cfg = record cfg {
  server_name = derived_name cfg.server_name (split_host addr);
}

-- `intn` is `rand.Intn`, and `handshake` is `utls.UClient` with its Handshake, to a connection `T`.
module _ {W T : Type 0} (p : Presets) (intn : ℕ → W → ℕ × W)
    (handshake : List ℕ → TlsConfig → W → (T ⊎ Error) × W) where
  pick_id : Bool → List ℕ → Act (Link W) (List ℕ)
  unfolding or_chrome rolled roll_set
  pick_id false id s = (ok (or_chrome p id), s)
  pick_id true id s = let (i, w) = intn 4 s.world in (rolled (roll_set p) i, record s { world = w })

  unfoldable pub client : Config → Act (Link W) T
  unfolding pick_id
  client cfg = do id ← pick_id cfg.roll cfg.fingerprint; net_call (handshake id (tls_config cfg))

  -- `dial` is `net.Dial(network, addr)`.
  unfoldable pub dialer :
      (List ℕ → List ℕ ⊎ Error) → (W → Option Error × W) → List ℕ → Config → W → Outcome T × Link W
  unfolding client with_server_name
  dialer split_host dial addr cfg w =
      dial_with dial (client (with_server_name split_host addr cfg)) (fresh_link w)
