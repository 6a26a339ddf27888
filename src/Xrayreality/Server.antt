-- ===== src/Xrayreality/Server.antt =====
-- Listener and GenerateKeyPair of xrayreality/server.go: the configuration of the REALITY library.
use obfs.Base.{ℕ, List, [], ◌∷◌, map, Bool, true, ℤ, Outcome, ok, ◌>>=◌, from_call, ◌⊎◌, Error}
use obfs.Xreality.Crypto.{Crypto}
use obfs.Xrayreality.{copied}

pub record ServerConfig : Type 0 where
  pub private_key : List ℕ
  pub short_ids : List (List ℕ)
  pub server_names : List (List ℕ)
  pub dest : List ℕ
  pub max_time_diff : ℤ
  pub min_client_ver : List ℕ
  pub max_client_ver : List ℕ
  pub verbose : Bool

-- The fields of the library's Config that are set; a map to true is the list of its keys.
pub record RealityConfig : Type 0 where
  pub verbose : Bool
  pub network : List ℕ
  pub session_tickets_disabled : Bool
  pub dest : List ℕ
  pub server_names : List (List ℕ)
  pub private_key : List ℕ
  pub short_ids : List (List ℕ)
  pub max_time_diff : ℤ
  pub min_client_ver : List ℕ
  pub max_client_ver : List ℕ

abbrev pub tcp : List ℕ
tcp = b't' ∷ b'c' ∷ b'p' ∷ []

unfoldable pub reality_config : ServerConfig → RealityConfig
reality_config cfg = record {
  verbose = cfg.verbose;
  network = tcp;
  session_tickets_disabled = true;
  dest = cfg.dest;
  server_names = cfg.server_names;
  private_key = cfg.private_key;
  short_ids = map (copied 8) cfg.short_ids;
  max_time_diff = cfg.max_time_diff;
  min_client_ver = cfg.min_client_ver;
  max_client_ver = cfg.max_client_ver;
}

-- `generate_key` is the key that `ecdh.X25519().GenerateKey` makes.
unfoldable pub generate_key_pair : Crypto → List ℕ ⊎ Error → Outcome (List ℕ × List ℕ)
generate_key_pair c generate_key = do k ← from_call generate_key; ok (k, c.public_key k)
