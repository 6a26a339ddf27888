-- ===== src/Reality/Listener/Tests.antt =====
-- A client with the token, and a probe with another name.
use obfs.Base.{
  ℕ, ◌≡◌, ◌≢◌, refl, List, [], ◌∷◌, ◌++◌, length, ◌==◌, Bool, true, Error, eof, ok, ◌⊎◌, inl,
  slice_from, slice_to,
}
use obfs.Hello.{handshake_bytes, hello_body, extension_bytes}
use obfs.Wire.{Stream, Sink, read_full}
use obfs.Wire.Laws.{stream}
use obfs.Reality.Sni.{sni_from_client_hello, sni_from_extension}
use obfs.Reality.Peek.{peek_client_hello_sni}
use obfs.Reality.Tests.{hello}
use obfs.Reality.Listener.{
  ServerConfig, Replayed, spliced, tunnelled, trim_dot, server_name_allowed, handle,
}
use obfs.Reality.Listener.Ways.{Handled, handle-Handled}
use obfs.Reality.Listener.Served.{IsServed, handle-tunnelled}

abbrev pub cfg : List ℕ → ServerConfig
cfg name = record {
  token = 7 ∷ 8 ∷ [];
  fallback = b'f' ∷ [];
  server_names = name ∷ [];
  passthrough = b'p' ∷ [];
}

abbrev pub own : ServerConfig
own = cfg (b'A' ∷ b'.' ∷ b'B' ∷ b'.' ∷ [])

-- As good as strings.EqualFold on these names.
abbrev pub equal_fold : List ℕ → List ℕ → Bool
equal_fold a b = length a == length b

abbrev pub raw : Stream
raw = stream (0x16 ∷ 3 ∷ 1 ∷ 0 ∷ 70 ∷ (handshake_bytes hello ++ (b'!' ∷ []))) eof

abbrev pub tls_server : Replayed → Stream ⊎ Error
tls_server pc = inl (stream (7 ∷ 8 ∷ 9 ∷ []) eof)

abbrev pub net : List ℕ → Sink ⊎ Error
net addr = inl (record { sent = []; faults = [] })

allows-name :
    server_name_allowed own equal_fold tls_server net true (b'a' ∷ b'.' ∷ b'b' ∷ []) ≡ true
unfolding server_name_allowed trim_dot
allows-name = refl

peeks_name : (peek_client_hello_sni raw).0 ≡ ok (b'a' ∷ b'.' ∷ b'b' ∷ [])
unfolding peek_client_hello_sni read_full sni_from_client_hello sni_from_extension slice_from
    slice_to handshake_bytes hello_body extension_bytes
peeks_name = refl

served : IsServed own equal_fold tls_server net (peek_client_hello_sni raw).0
served = rw peeks_name allows-name

filled : own.token ≢ []
filled e = absurd (cc)

pub tunnels_client :
    handle own equal_fold tls_server net true raw ≡ ok (tunnelled (stream (9 ∷ []) eof))
tunnels_client =
    handle-tunnelled own equal_fold tls_server net raw (9 ∷ []) eof filled served (λ pc h. refl)

handle-tunnelled_example :
    handle own equal_fold tls_server net true raw ≡ ok (tunnelled (stream (9 ∷ []) eof))
handle-tunnelled_example =
    handle-tunnelled own equal_fold tls_server net raw (9 ∷ []) eof filled served (λ pc h. refl)

-- The ClientHello of `raw` does not name the other server.
handle-Handled_example :
    Handled
      (cfg (b'c' ∷ []))
      equal_fold
      tls_server
      net
      true
      raw
      (handle (cfg (b'c' ∷ [])) equal_fold tls_server net true raw)
handle-Handled_example = handle-Handled (cfg (b'c' ∷ [])) equal_fold tls_server net true raw

pub passes_on :
    handle (cfg (b'c' ∷ [])) equal_fold tls_server net true raw
    ≡ ok (
        spliced
          (record {
            prefix = 0x16 ∷ 3 ∷ 1 ∷ 0 ∷ 70 ∷ handshake_bytes hello;
            conn = stream (b'!' ∷ []) eof;
          })
          (record { sent = []; faults = [] }))
unfolding handle server_name_allowed trim_dot peek_client_hello_sni read_full sni_from_client_hello
    sni_from_extension slice_from slice_to handshake_bytes hello_body extension_bytes
passes_on = refl
