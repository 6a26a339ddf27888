-- ===== src/Xreality/Tests.antt =====
-- A concrete handshake over a toy cryptography, and the theorems on it.
pub mod Toy
use obfs.Base.{
  ℕ, ◌+◌, ◌-◌, ◌≤◌, ◌≡◌, refl, List, [], ◌∷◌, ◌++◌, arith, replicate, length, take, length-append,
  length-replicate, take-append_self, Bool, true, false, Option, none, some, ℤ, pos, ◌⊎◌, inl, inr,
  leb, if◌then◌else◌, Bool-cases, length-take, length-drop, drop, take-append-drop, append-nil, ltb,
}
use obfs.Base.{Error, eof, closed, Outcome, ok, err, Returns, bad_hello, not_tls, other}
use obfs.Wire.{Stream, read_full}
use obfs.Base.{slice}
use obfs.Hello.{
  KeyShare, ServerName, Extension, ClientHello, IsClientHello, extension_bytes, share_bytes,
  name_bytes, handshake_bytes, hello_body, record_bytes,
}
use obfs.Base.{map, All, negsuc, ◌<◌, slice_from, slice_to}
use obfs.Hello.{first_x25519, vector16}
use obfs.Xreality.Tests.Toy.{toy}
use obfs.Xreality.Parse.{parse_client_hello}
use obfs.Xreality.Parse.Total.{parse_client_hello-Returns}
use obfs.Xreality.Parse.Finds.{
  Content, server_names, key_shares, unread, content_extension, IsContent, described,
}
use obfs.Xreality.Parse.Record.{info_of, parse_client_hello-info}
use obfs.Xreality.Auth.{padded, in_window, accepted, client_session_id, server_authenticate}
use obfs.Xreality.Auth.Agree.{client_session_id-Returns, server_authenticate-client_session_id}
use obfs.Xreality.Auth.Sound.{
  IsAuthentic, server_authenticate-IsAuthentic, server_authenticate-answers,
}
use obfs.Xreality.Server.{decision, authenticate}
use obfs.Xreality.Server.Laws.{authenticate-client, authenticate-Returns}
use obfs.Xreality.Peek.{BaseRead, PrefixConn, pending, peek_record, prefix_read, read_each}
use obfs.Xreality.Peek.Replay.{Kept, peek_record-Kept, read_each-pending}
use obfs.Xreality.Channel.{
  TlsConn, proof, server_tag, client_tag, client_channel_auth, server_channel_auth,
}
use obfs.Xreality.Channel.Mutual.{
  channel_auth_mutual, end_of, client_channel_auth-Proved, server_channel_auth-Proved, Proved,
}
use obfs.Xreality.Listener.Served.{handle-client}
use obfs.Wire.Laws.{stream}
use obfs.Xreality.Listener.{tunnel, ServerConfig, accept_short_id, handle, passthrough}
use obfs.Xreality.Listener.Ways.{Configured, accept_short_id-Configured, Way, handle-Way}

abbrev random : List ℕ
random = replicate 32 3

-- The time 1000, the short ID 1 2 and the tag.
abbrev sealed_id : List ℕ
sealed_id = 0 ∷ 0 ∷ 0 ∷ 0 ∷ 0 ∷ 0 ∷ 3 ∷ 232 ∷ 1 ∷ 2 ∷ replicate 22 0

abbrev auth_key : List ℕ
auth_key = 9 ∷ []

seals :
    client_session_id toy (toy.public_key []) [] random (1 ∷ 2 ∷ []) 1000 ≡ ok (sealed_id, auth_key)
unfolding client_session_id slice_from slice_to padded
seals = refl

abbrev contents : List Content
contents =
    server_names (record { name_type = 0; name = b'a' ∷ b'b' ∷ [] } ∷ [])
    ∷ unread 43 (1 ∷ [])
    ∷ key_shares (
        record { group = 0x2a2a; share = 0 ∷ [] }
        ∷ record { group = 0x001d; share = replicate 32 7 }
        ∷ [])
    ∷ []

abbrev hello : ClientHello
hello = record {
  version = 3 ∷ 3 ∷ [];
  random = random;
  session_id = sealed_id;
  cipher_suites = 0x13 ∷ 1 ∷ [];
  compression = 0 ∷ [];
  extensions = map content_extension contents;
}

hello-IsClientHello : IsClientHello hello
unfolding content_extension extension_bytes name_bytes share_bytes
hello-IsClientHello = record {
  version_size = refl;
  random_size = refl;
  session_size = omega arith;
  suites_size = omega arith;
  compression_size = omega arith;
  extensions_size = omega arith;
  extensions_valid = omega arith;
}

contents-IsContent : All IsContent contents
unfolding name_bytes share_bytes
contents-IsContent = omega arith

hello_size : length (handshake_bytes hello) < 65536
unfolding handshake_bytes hello_body content_extension extension_bytes name_bytes share_bytes
hello_size = omega arith

hello_share : (info_of hello contents).x25519 ≡ toy.public_key []
unfolding described first_x25519
hello_share = refl

abbrev pub since : ℕ → ℤ
since t = negsuc 5

abbrev accept : Option (List ℕ → Bool)
accept = some (accept_short_id ((1 ∷ 2 ∷ []) ∷ []))

timely : in_window (pos 10) (since 1000) ≡ true
unfolding in_window
timely = refl

admits : accepted accept (padded (1 ∷ 2 ∷ [])) ≡ true
unfolding accepted accept_short_id padded
admits = refl

abbrev wire : List ℕ
wire = record_bytes 3 1 hello

authenticate-client_example :
    authenticate toy accept (pos 10) since [] (wire ++ (b'!' ∷ []))
    ≡ ok (decision (info_of hello contents) (some auth_key))
authenticate-client_example =
    authenticate-client toy accept (pos 10) since [] 3 1 hello contents (b'!' ∷ []) [] (1 ∷ 2 ∷ [])
      auth_key 1000 refl hello-IsClientHello contents-IsContent hello_size hello_share (omega arith)
      timely admits seals

authenticates :
    server_authenticate toy accept (pos 10) since [] (toy.public_key []) random sealed_id
    ≡ ok (some auth_key)
authenticates =
    server_authenticate-client_session_id toy accept (pos 10) since [] [] random (1 ∷ 2 ∷ [])
      sealed_id auth_key 1000 (omega arith) timely admits seals

parse_client_hello-info_example :
    parse_client_hello (wire ++ (b'!' ∷ [])) ≡ ok (info_of hello contents)
parse_client_hello-info_example =
    parse_client_hello-info 3 1 hello contents (b'!' ∷ []) refl hello-IsClientHello
      contents-IsContent hello_size

rejects_other : parse_client_hello (0x17 ∷ 3 ∷ 1 ∷ 0 ∷ 4 ∷ []) ≡ err not_tls
unfolding parse_client_hello
rejects_other = refl

rejects_cut : parse_client_hello (0x16 ∷ 3 ∷ 1 ∷ 0 ∷ 4 ∷ 1 ∷ []) ≡ err bad_hello
unfolding parse_client_hello
rejects_cut = refl

abbrev pub raw : Stream
raw = record { bytes = 0x16 ∷ 3 ∷ 1 ∷ 0 ∷ 4 ∷ 1 ∷ 0 ∷ 0 ∷ 0 ∷ b'x' ∷ []; fail = eof }

-- A transport that fills the buffer.
abbrev full_read : BaseRead
full_read = record {
  read = λ room s. (inl (take room s.bytes), record s { bytes = drop room s.bytes });
  keeps_order =
      λ room s b h. let e : take room s.bytes ≡ b = cc in rw (← e) (take-append-drop room s.bytes);
  fits = λ room s b h.
      let e : take room s.bytes ≡ b = cc in rw (← e) (omega (arith, length-take room s.bytes));
  keeps_on_error = λ room s e h. absurd (cc);
}

abbrev peeked : PrefixConn
peeked = record { prefix = 1 ∷ 2 ∷ 3 ∷ []; conn = raw }

reads_in_order : (read_each full_read (2 ∷ 2 ∷ 4 ∷ []) peeked).0 ≡ 1 ∷ 2 ∷ 3 ∷ 0x16 ∷ 3 ∷ 1 ∷ 0 ∷ []
unfolding read_each prefix_read
reads_in_order = refl

channel_auth_mutual_example :
    (client_channel_auth toy auth_key
        (end_of toy auth_key [] (proof toy auth_key server_tag [] ++ (1 ∷ [])) eof [])
      ≡ ok (end_of toy auth_key [] (1 ∷ []) eof (proof toy auth_key client_tag [])))
    × (server_channel_auth toy auth_key
          (end_of toy auth_key [] (proof toy auth_key client_tag [] ++ (1 ∷ [])) eof [])
        ≡ ok (end_of toy auth_key [] (1 ∷ []) eof (proof toy auth_key server_tag [])))
channel_auth_mutual_example = channel_auth_mutual toy auth_key [] (1 ∷ []) [] eof

abbrev server_side : TlsConn
server_side = end_of toy auth_key [] (proof toy auth_key server_tag [] ++ []) eof []

abbrev client_side : TlsConn
client_side = end_of toy auth_key [] (proof toy auth_key client_tag [] ++ []) eof []

client_accepts :
    client_channel_auth toy auth_key server_side
    ≡ ok (end_of toy auth_key [] [] eof (proof toy auth_key client_tag []))
client_accepts = (channel_auth_mutual toy auth_key [] [] [] eof).0

server_accepts :
    server_channel_auth toy auth_key client_side
    ≡ ok (end_of toy auth_key [] [] eof (proof toy auth_key server_tag []))
server_accepts = (channel_auth_mutual toy auth_key [] [] [] eof).1

abbrev cohorts : List (List ℕ)
cohorts = (4 ∷ []) ∷ (1 ∷ 2 ∷ []) ∷ []

accepts : accept_short_id cohorts (1 ∷ 2 ∷ replicate 6 0) ≡ true
unfolding accept_short_id padded
accepts = refl

abbrev pub cfg : ServerConfig
cfg = record { private_key = []; short_ids = cohorts; time_skew = pos 10 }

abbrev pub tls_server : PrefixConn → TlsConn ⊎ Error
tls_server c = inl client_side

abbrev pub hello_stream : Stream
hello_stream = record { bytes = wire ++ (b'!' ∷ []); fail = eof }

handle-Way_example :
    Way toy cfg since tls_server true hello_stream.bytes
      (handle toy cfg since tls_server true hello_stream)
handle-Way_example = handle-Way toy cfg since tls_server true hello_stream

-- The probe of `raw` is spliced with its bytes.
pub handles_probe :
    handle toy cfg since tls_server true raw
    ≡ ok (
        passthrough (record {
          prefix = 0x16 ∷ 3 ∷ 1 ∷ 0 ∷ 4 ∷ 1 ∷ 0 ∷ 0 ∷ 0 ∷ [];
          conn = record { bytes = b'x' ∷ []; fail = eof };
        }))
unfolding handle peek_record read_full authenticate parse_client_hello slice slice_from slice_to
handles_probe = refl

configured : Configured cohorts (padded (1 ∷ 2 ∷ []))
configured = inr (inl refl)

hello_fits : length (handshake_bytes hello) ≤ 16384
unfolding handshake_bytes hello_body extension_bytes name_bytes share_bytes content_extension
hello_fits = omega arith

handle-client_example :
    handle toy cfg since tls_server true (stream (wire ++ (b'!' ∷ [])) eof)
    ≡ ok (tunnel (end_of toy auth_key [] [] eof (proof toy auth_key server_tag [])))
handle-client_example =
    handle-client toy cfg since tls_server auth_key [] 3 1 hello contents (b'!' ∷ []) []
      (1 ∷ 2 ∷ []) [] 1000 eof eof refl hello-IsClientHello contents-IsContent hello_fits
      hello_share (omega arith) timely configured seals refl
