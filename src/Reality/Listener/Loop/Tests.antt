-- ===== src/Reality/Listener/Loop/Tests.antt =====
-- A client that Accept returns, and one that comes too late.
use obfs.Base.{refl, [], ◌∷◌, true, false, eof}
use obfs.Wire.{Stream}
use obfs.Wire.Laws.{stream}
use obfs.Gate.{
  Gate, looping, got_conn, got_closed, arrived, offered_up, taken, let_go, refused, shutting,
  no_steps, more_steps,
}
use obfs.Gate.Keeps.{Accepts}
use obfs.Reality.Listener.Tests.{own, equal_fold, raw, tls_server, net, tunnels_client}
use obfs.Reality.Listener.Loop.{new_listener, tunnels, Runs}
use obfs.Reality.Listener.Loop.Accepted.{HasToken, accepted-HasToken}

abbrev client : Stream
client = stream (9 ∷ []) eof

abbrev at_end : Gate Stream Stream
at_end = record {
  loop = looping;
  handling = [];
  offering = [];
  gone = raw ∷ [];
  results = got_closed ∷ got_conn raw client ∷ [];
  done = true;
  base_open = false;
}

-- Two clients come; Accept returns one; behind Close the other is closed, and Accept returns ErrClosed.
serves_one : Runs own equal_fold tls_server net new_listener at_end
serves_one =
    let both_made =
      more_steps
        (more_steps
          (more_steps (more_steps no_steps (arrived raw refl refl)) (arrived raw refl refl))
          (offered_up [] raw (raw ∷ []) client refl (tunnels client tunnels_client)))
        (offered_up [] raw [] client refl (tunnels client tunnels_client)) in
    more_steps
      (more_steps
        (more_steps (more_steps both_made (taken [] raw client ((raw, client) ∷ []) refl)) shutting)
        (let_go [] raw client [] refl refl))
      (refused refl)

accepted-HasToken_example : Accepts (HasToken own equal_fold tls_server net) at_end.results
accepted-HasToken_example = accepted-HasToken own equal_fold tls_server net serves_one
