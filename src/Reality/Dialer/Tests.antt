-- ===== src/Reality/Dialer/Tests.antt =====
-- A run of Dialer.
use obfs.Base.{
  ℕ, suc, List, [], ◌∷◌, false, none, Error, eof, some, err, Option, ◌⊎◌, inl, ◌≡◌, refl,
}
use obfs.Act.{Ended}
use obfs.Link.{IsGone, fresh_link, hung_up, net_dial}
use obfs.Wire.{Sink, base_write}
use obfs.Tlscamo.{TlsConfig, client}
use obfs.Tlscamo.Tests.{presets, intn, intn-IsBelow}
use obfs.Reality.Dialer.{ClientConfig, dialer}
use obfs.Reality.Dialer.Sends.{HasSent, dialer-Sent}

abbrev cfg : ClientConfig
cfg = record {
  tls = record {
    server_name = 8 ∷ [];
    fingerprint = 2 ∷ [];
    next_protos = [];
    insecure_skip_verify = false;
    roll = false;
    ech_config_list = [];
  };
  token = 7 ∷ 7 ∷ [];
}

abbrev handshake : List (Option (ℕ × Error)) → List ℕ → TlsConfig → ℕ → (Sink ⊎ Error) × ℕ
handshake faults id tls w = (inl (record { sent = []; faults = faults }), suc w)

-- The token cannot be written.
dialer-fails :
    dialer presets intn (handshake (some (1, eof) ∷ [])) (λ w. (none, suc w)) cfg (fresh_link 0)
    ≡ (err eof, record { world = 2; socket = hung_up; deadline = none })
unfolding dialer client net_dial base_write
dialer-fails = refl

dialer-Sent_example :
    Ended
      (HasSent presets intn (handshake []) cfg)
      (λ s. IsGone s.socket)
      (dialer presets intn (handshake []) (λ w. (none, suc w)) cfg (fresh_link 0))
dialer-Sent_example =
    dialer-Sent presets intn (handshake []) (λ w. (none, suc w)) cfg 0 intn-IsBelow
