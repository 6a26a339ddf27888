-- ===== src/Hello.antt =====
-- TLS ClientHello messages: what a well-formed one is. Both packages that peek at the ClientHello,
-- reality and xreality, are measured against this description.
use obfs.Base.{ℕ, ◌+◌, ◌/◌, ◌%◌, ◌<◌, ◌≡◌, List, [], ◌∷◌, ◌++◌, length, put_uint16, All}
use obfs.Base.{length-append, arith, ◌==◌, ◌&&◌, if◌then◌else◌}

-- A 2-byte type or a 1-byte type, each with its bytes.
pub record Extension : Type 0 where
  pub kind : ℕ
  pub body : List ℕ

pub record ServerName : Type 0 where
  pub name_type : ℕ
  pub name : List ℕ

pub record KeyShare : Type 0 where
  pub group : ℕ
  pub share : List ℕ

pub record ClientHello : Type 0 where
  pub version : List ℕ
  pub random : List ℕ
  pub session_id : List ℕ
  pub cipher_suites : List ℕ
  pub compression : List ℕ
  pub extensions : List Extension

-- The first name of type host_name, and the first share of X25519 with its 32 bytes.
unfoldable pub first_host : List ServerName → List ℕ
first_host [] = []
first_host (n ∷ ns) = if n.name_type == 0 then n.name else first_host ns

unfoldable pub first_x25519 : List KeyShare → List ℕ
first_x25519 [] = []
first_x25519 (k ∷ ks) =
    if (k.group == 0x001d) && (length k.share == 32) then k.share else first_x25519 ks

-- A field behind its length in one byte, and in two.
abbrev pub vector8 : List ℕ → List ℕ
vector8 bs = length bs ∷ bs

abbrev pub vector16 : List ℕ → List ℕ
vector16 bs = put_uint16 (length bs) ++ bs

unfoldable pub extension_bytes : Extension → List ℕ
extension_bytes x = put_uint16 x.kind ++ vector16 x.body

unfoldable pub name_bytes : ServerName → List ℕ
name_bytes n = n.name_type ∷ vector16 n.name

unfoldable pub share_bytes : KeyShare → List ℕ
share_bytes k = put_uint16 k.group ++ vector16 k.share

abbrev pub concat_map {ℓ} : {A : Type ℓ} → (A → List ℕ) → List A → List ℕ
concat_map f [] = []
concat_map f (x ∷ xs) = f x ++ concat_map f xs

-- The message behind its 4-byte handshake header.
unfoldable pub hello_body : ClientHello → List ℕ
hello_body h =
    h.version
    ++ (h.random
        ++ (vector8 h.session_id
            ++ (vector16 h.cipher_suites
                ++ (vector8 h.compression ++ vector16 (concat_map extension_bytes h.extensions)))))

-- The handshake header: the type and a 3-byte length.
unfoldable pub handshake_bytes : ClientHello → List ℕ
handshake_bytes h =
    let n = length (hello_body h) in 0x01 ∷ (n / 65536) ∷ (n / 256 % 256) ∷ (n % 256) ∷ hello_body h

-- The record header, version `major`.`minor`.
unfoldable pub record_bytes : ℕ → ℕ → ClientHello → List ℕ
record_bytes major minor h = 0x16 ∷ major ∷ minor ∷ vector16 (handshake_bytes h)

abbrev pub IsExtension : Extension → Type 0
IsExtension x = (x.kind < 65536) × (length x.body < 65536)

abbrev pub IsServerName : ServerName → Type 0
IsServerName n = length n.name < 65536

abbrev pub IsKeyShare : KeyShare → Type 0
IsKeyShare k = (k.group < 65536) × (length k.share < 65536)

-- The fields fit their lengths.
pub record IsClientHello (h : ClientHello) : Type 0 where
  pub version_size : length h.version ≡ 2
  pub random_size : length h.random ≡ 32
  pub session_size : length h.session_id < 256
  pub suites_size : length h.cipher_suites < 65536
  pub compression_size : length h.compression < 256
  pub extensions_size : length (concat_map extension_bytes h.extensions) < 65536
  pub extensions_valid : All IsExtension h.extensions

pub length-extension_bytes :
    (x : Extension) (rest : List ℕ)
    → length (extension_bytes x ++ rest) ≡ 4 + length x.body + length rest
unfolding extension_bytes
length-extension_bytes x rest = omega (arith, length-append x.body rest)

pub length-name_bytes :
    (n : ServerName) (rest : List ℕ)
    → length (name_bytes n ++ rest) ≡ 3 + length n.name + length rest
unfolding name_bytes
length-name_bytes n rest = omega (arith, length-append n.name rest)

pub length-share_bytes :
    (k : KeyShare) (rest : List ℕ)
    → length (share_bytes k ++ rest) ≡ 4 + length k.share + length rest
unfolding share_bytes
length-share_bytes k rest = omega (arith, length-append k.share rest)
