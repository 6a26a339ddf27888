-- ===== src/Xreality/Auth.antt =====
-- xreality/auth.go: the token in the session ID, sealed by the client and opened by the server.
pub mod Agree
pub mod Sound
use obfs.Base.{
  ℕ, zero, suc, ◌+◌, ◌-◌, ◌≡◌, List, [], ◌∷◌, ◌++◌, length, take, replicate, ltb, ◌==◌, not,
  if◌then◌else◌, ◌&&◌, Bool, true, false, Option, none, some, ℤ, pos, negsuc,
}
use obfs.Base.{
  Outcome, ok, err, panic, stuck, ◌>>=◌, from_call, slice, slice_from, slice_to, be_bytes, be_value,
  bad_random, short_id, bad_session, auth_failed,
}
use obfs.Xreality.Crypto.{Aead, Crypto}

abbrev pub client_random_len : ℕ
client_random_len = 32

abbrev pub short_id_len : ℕ
short_id_len = 8

abbrev pub session_id_len : ℕ
session_id_len = 32

abbrev pub aad_len : ℕ
aad_len = 20

-- `padded := make([]byte, ShortIDLen); copy(padded, id)`
unfoldable pub padded : List ℕ → List ℕ
padded id = take short_id_len id ++ replicate (short_id_len - length id) 0

-- GCM's nonce size is 12 bytes; Seal and Open panic on another.
seal_with : Aead → List ℕ → List ℕ → List ℕ → Outcome (List ℕ)
seal_with aead nonce plaintext aad =
    if length nonce == 12 then ok (aead.seal nonce plaintext aad) else panic

open_result : Option (List ℕ) → Outcome (List ℕ)
open_result none = err auth_failed
open_result (some plaintext) = ok plaintext

open_with : Aead → List ℕ → List ℕ → List ℕ → Outcome (List ℕ)
unfolding open_result
open_with aead nonce ciphertext aad =
    if length nonce == 12 then open_result (aead.open_sealed nonce ciphertext aad) else panic

-- `skew > 0` and `d < -skew || d > skew`, the other way round. `negsuc n` is -(n + 1).
too_far : ℕ → ℤ → Bool
too_far skew (pos d) = ltb skew d
too_far skew (negsuc d) = ltb skew (suc d)

unfoldable pub in_window : ℤ → ℤ → Bool
unfolding too_far
in_window (negsuc s) d = true
in_window (pos zero) d = true
in_window (pos (suc s)) d = not (too_far (suc s) d)

-- `accept == nil || accept(shortID)`
unfoldable pub accepted : Option (List ℕ → Bool) → List ℕ → Bool
accepted none id = true
accepted (some accept) id = accept id

-- A failure is `none`: ok=false, with no error to tell it from another.
or_false {ℓ} : {A : Type ℓ} → Outcome (Option A) → Outcome (Option A)
or_false (ok r) = ok r
or_false (err e) = ok none
or_false panic = panic
or_false stuck = stuck

module _ (c : Crypto) where
  pub derive_auth_key : List ℕ → List ℕ → Outcome (List ℕ)
  derive_auth_key shared client_random =
      if not (length client_random == client_random_len)
      then err bad_random
      else from_call (c.hkdf_key shared client_random)

  -- `t` is `uint64(t.Unix())`.
  seal_auth : List ℕ → List ℕ → List ℕ → ℕ → Outcome (List ℕ)
  unfolding seal_with
  seal_auth auth_key client_random id t =
      if not (length client_random == client_random_len)
      then err bad_random
      else if ltb short_id_len (length id)
      then err short_id
      else do
        aead ← from_call (c.aead_for auth_key)
        nonce ← slice_from client_random aad_len
        aad ← slice_to client_random aad_len
        seal_with aead nonce (be_bytes 8 t ++ padded id) aad

  -- The timestamp as the 64 bits on the wire, and the short ID.
  pub open_auth : List ℕ → List ℕ → List ℕ → Outcome (ℕ × List ℕ)
  unfolding open_with
  open_auth auth_key client_random session_id =
      if not (length client_random == client_random_len)
      then err bad_random
      else if not (length session_id == session_id_len)
      then err bad_session
      else do
        aead ← from_call (c.aead_for auth_key)
        nonce ← slice_from client_random aad_len
        aad ← slice_to client_random aad_len
        pt ← open_with aead nonce session_id aad
        stamp ← slice pt 0 8
        id ← slice pt 8 16
        ok (be_value 0 stamp, padded id)

  -- ClientSessionID: the session ID and the auth key. `now` is `uint64(time.Now().Unix())`.
  unfoldable pub client_session_id :
      List ℕ → List ℕ → List ℕ → List ℕ → ℕ → Outcome (List ℕ × List ℕ)
  unfolding derive_auth_key seal_auth
  client_session_id server_pub client_ephemeral client_random id now = do
    peer ← from_call (c.new_public_key server_pub)
    shared ← from_call (c.ecdh client_ephemeral peer)
    auth_key ← derive_auth_key shared client_random
    session_id ← seal_auth auth_key client_random id now
    ok (session_id, auth_key)

  module _ (accept : Option (List ℕ → Bool)) (skew : ℤ) (since : ℕ → ℤ) where
    -- `since v` is `time.Since(time.Unix(int64(v), 0))`, in nanoseconds.
    admit : List ℕ → ℕ × List ℕ → Option (List ℕ)
    admit auth_key (t, id) =
        if in_window skew (since t) && accepted accept id then some auth_key else none

    unfoldable pub server_authenticate :
        List ℕ → List ℕ → List ℕ → List ℕ → Outcome (Option (List ℕ))
    unfolding derive_auth_key open_auth or_false admit
    server_authenticate server_priv client_pub client_random session_id = or_false (do
      peer ← from_call (c.new_public_key client_pub)
      shared ← from_call (c.ecdh server_priv peer)
      auth_key ← derive_auth_key shared client_random
      token ← open_auth auth_key client_random session_id
      ok (admit auth_key token))
