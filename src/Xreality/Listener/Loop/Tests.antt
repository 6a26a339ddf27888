-- ===== src/Xreality/Listener/Loop/Tests.antt =====
-- A client that Accept returns, and Close behind it.
use obfs.Base.{◌≡◌, refl, [], ◌∷◌, true, false, eof, ok, slice, slice_from, slice_to}
use obfs.Wire.{read_full, base_write}
use obfs.Xreality.Parse.Finds.{content_extension}
use obfs.Gate.{
  Gate, looping, got_conn, got_closed, arrived, offered_up, taken, refused, shutting, no_steps,
  more_steps,
}
use obfs.Gate.Keeps.{Accepts, Shuts, Sound, Steps-Sound}
use obfs.Xreality.Tests.Toy.{toy}
use obfs.Xreality.Tests.{cfg, tls_server, hello_stream, since}
use obfs.Xreality.Parse.{parse_client_hello, parse_sni, parse_key_share_x25519}
use obfs.Xreality.Auth.{padded, server_authenticate, in_window, accepted}
use obfs.Xreality.Server.{authenticate}
use obfs.Xreality.Peek.{peek_record}
use obfs.Xreality.Channel.{TlsConn, server_channel_auth, hmac_equal, proof, server_tag}
use obfs.Xreality.Channel.Mutual.{end_of}
use obfs.Hello.{record_bytes, handshake_bytes, hello_body, extension_bytes, name_bytes, share_bytes}
use obfs.Xreality.Listener.{tunnel, handle, accept_short_id}
use obfs.Xreality.Listener.Loop.{Incoming, new_listener, close_listener, Handles, tunnels, Runs}
use obfs.Xreality.Listener.Loop.Accepted.{IsAuthenticated, accepted-IsAuthenticated}

abbrev client : Incoming
client = record { conn = hello_stream; since = since }

abbrev tunnel_conn : TlsConn
tunnel_conn = end_of toy (9 ∷ []) [] [] eof (proof toy (9 ∷ []) server_tag [])

handles_client : handle toy cfg since tls_server true hello_stream ≡ ok (tunnel tunnel_conn)
unfolding handle peek_record read_full authenticate parse_client_hello parse_sni
    parse_key_share_x25519 slice slice_from slice_to accept_short_id padded server_authenticate
    in_window server_channel_auth hmac_equal proof record_bytes handshake_bytes hello_body
    extension_bytes name_bytes share_bytes accepted content_extension base_write
handles_client = refl

abbrev at_end : Gate Incoming TlsConn
at_end = record {
  loop = looping;
  handling = [];
  offering = [];
  gone = [];
  results = got_closed ∷ got_conn client tunnel_conn ∷ [];
  done = true;
  base_open = false;
}

-- The client comes, Accept returns its tunnel, the listener is closed, and Accept returns ErrClosed.
serves_client : Runs toy cfg tls_server new_listener at_end
serves_client =
    more_steps
      (more_steps
        (more_steps
          (more_steps (more_steps no_steps (arrived client refl refl))
            (offered_up [] client [] tunnel_conn refl (tunnels tunnel_conn handles_client)))
          (taken [] client tunnel_conn [] refl))
        shutting)
      (refused refl)

accepted-IsAuthenticated_example : Accepts (IsAuthenticated toy cfg tls_server) at_end.results
accepted-IsAuthenticated_example = accepted-IsAuthenticated toy cfg tls_server serves_client

closes_done : Shuts (Handles toy cfg tls_server) close_listener
closes_done l = (false, refl)

Steps-Sound_example : Sound (Handles toy cfg tls_server) at_end
Steps-Sound_example =
    Steps-Sound (Handles toy cfg tls_server) close_listener closes_done serves_client
