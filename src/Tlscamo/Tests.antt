-- ===== src/Tlscamo/Tests.antt =====
-- A toy TLS library: the dialer with a fingerprint that is rolled.
use obfs.Base.{
  ℕ, suc, ◌<◌, ltb, List, [], ◌∷◌, true, false, none, Error, ok, ◌⊎◌, inl, ◌≡◌, refl, arith,
  if◌then◌else◌,
}
use obfs.Link.{connected, net_dial, dial_with}
use obfs.Tlscamo.{
  Presets, roll_set, Config, TlsConfig, tls_config, with_server_name, client, dialer,
}

abbrev pub presets : Presets
presets = record { chrome = 1 ∷ []; firefox = 2 ∷ []; safari = 3 ∷ []; edge = 4 ∷ [] }

abbrev cfg : Config
cfg = record {
  server_name = [];
  fingerprint = [];
  next_protos = [];
  insecure_skip_verify = false;
  roll = true;
  ech_config_list = [];
}

abbrev pub intn : ℕ → ℕ → ℕ × ℕ
intn n w = (if ltb w n then w else 0, suc w)

-- A connection is the fingerprint and the server name that it has presented.
abbrev handshake : List ℕ → TlsConfig → ℕ → ((List ℕ × List ℕ) ⊎ Error) × ℕ
handshake id tls w = (inl (id, tls.server_name), suc w)

dials :
    dialer presets intn handshake (λ addr. inl (8 ∷ [])) (λ w. (none, suc w)) [] cfg 0
    ≡ (ok (2 ∷ [], 8 ∷ []), record { world = 3; socket = connected; deadline = none })
unfolding dialer client with_server_name roll_set dial_with net_dial tls_config
dials = refl

pub intn-IsBelow : (n : ℕ) (w : ℕ) → 0 < n → (intn n w).0 < n
intn-IsBelow n w h = ground arith
