-- ===== src/Xreality/Server.antt =====
-- xreality/server.go: Authenticate, the decision over a peeked ClientHello.
pub mod Laws
pub mod Sound
use obfs.Base.{
  ℕ, List, [], length, ◌==◌, not, ◌||◌, if◌then◌else◌, Bool, true, false, Option, none, some, ℤ,
}
use obfs.Base.{Outcome, ok, ◌>>=◌}
use obfs.Xreality.Parse.{ClientHelloInfo, parse_client_hello}
use obfs.Xreality.Crypto.{Crypto}
use obfs.Xreality.Auth.{client_random_len, session_id_len, server_authenticate}

pub record Decision : Type 0 where
  pub authenticated : Bool
  pub auth_key : List ℕ
  pub info : ClientHelloInfo

abbrev pub decision : ClientHelloInfo → Option (List ℕ) → Decision
decision info none = record { authenticated = false; auth_key = []; info = info }
decision info (some key) = record { authenticated = true; auth_key = key; info = info }

not_ours : ClientHelloInfo → Bool
not_ours info =
    not (length info.x25519 == 32)
    || (not (length info.session_id == session_id_len)
        || not (length info.random == client_random_len))

module _ (c : Crypto) (accept : Option (List ℕ → Bool)) (skew : ℤ) (since : ℕ → ℤ)
    (server_priv : List ℕ) where
  decide : ClientHelloInfo → Outcome Decision
  unfolding not_ours
  decide info = if not_ours info then ok (decision info none) else do
    key ←
        server_authenticate c accept skew since server_priv info.x25519 info.random info.session_id
    ok (decision info key)

  unfoldable pub authenticate : List ℕ → Outcome Decision
  unfolding decide
  authenticate bytes = do info ← parse_client_hello bytes; decide info
