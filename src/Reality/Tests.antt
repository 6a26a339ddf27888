-- ===== src/Reality/Tests.antt =====
-- A concrete ClientHello, and the theorems about the parser on it.
use obfs.Base.{ℕ, ◌≡◌, refl, List, [], ◌∷◌, arith, replicate}
use obfs.Base.{ok, err, bad_hello, slice_from, slice_to}
use obfs.Hello.{
  ServerName, ClientHello, extension_bytes, hello_body, handshake_bytes, IsClientHello,
}
use obfs.Reality.Sni.{sni_from_extension, sni_from_client_hello}
use obfs.Reality.Sni.Finds.{first_sni, sni_from_client_hello-first}

abbrev names : List ServerName
names =
    record { name_type = 1; name = 9 ∷ [] }
    ∷ record { name_type = 0; name = b'a' ∷ b'.' ∷ b'b' ∷ [] }
    ∷ []

-- A list of names, one of an unknown type and `a.b`.
abbrev sni_body : List ℕ
sni_body = 0 ∷ 10 ∷ 1 ∷ 0 ∷ 1 ∷ 9 ∷ 0 ∷ 0 ∷ 3 ∷ b'a' ∷ b'.' ∷ b'b' ∷ []

abbrev pub hello : ClientHello
hello = record {
  version = 3 ∷ 3 ∷ [];
  random = replicate 32 1;
  session_id = 5 ∷ 6 ∷ [];
  cipher_suites = 0x13 ∷ 1 ∷ [];
  compression = 0 ∷ [];
  extensions = record { kind = 43; body = 1 ∷ [] } ∷ record { kind = 0; body = sni_body } ∷ [];
}

hello-IsClientHello : IsClientHello hello
unfolding extension_bytes
hello-IsClientHello = record {
  version_size = refl;
  random_size = refl;
  session_size = omega arith;
  suites_size = omega arith;
  compression_size = omega arith;
  extensions_size = omega arith;
  extensions_valid = omega arith;
}

finds_name : sni_from_client_hello (handshake_bytes hello) ≡ ok (b'a' ∷ b'.' ∷ b'b' ∷ [])
unfolding sni_from_client_hello handshake_bytes hello_body extension_bytes sni_from_extension
    slice_from slice_to
finds_name = refl

rejects_cut : sni_from_client_hello (1 ∷ 0 ∷ 0 ∷ 9 ∷ 3 ∷ 3 ∷ []) ≡ err bad_hello
unfolding sni_from_client_hello slice_from slice_to
rejects_cut = refl

sni_from_client_hello-first_example :
    sni_from_client_hello (handshake_bytes hello) ≡ first_sni hello.extensions
sni_from_client_hello-first_example = sni_from_client_hello-first hello hello-IsClientHello
