-- ===== src/Webrtc/Conn/Tests.antt =====
-- SetDeadline succeeds although the deadline of reads was not set.
use obfs.Base.{ℕ, suc, [], pos, none, some, inl, other, ◌≡◌, refl}
use obfs.Webrtc.Conn.{Channel, set_read_deadline, set_write_deadline, set_conn_deadline}

abbrev half : Channel ℕ
half = record {
  read = λ room w. (inl [], w);
  write = λ p w. (none, w);
  set_read = some (λ t w. (some (other 1), w));
  set_write = some (λ t w. (none, suc w));
}

drops_error : set_conn_deadline half (pos 5) 0 ≡ (none, 1)
unfolding set_conn_deadline set_read_deadline set_write_deadline
drops_error = refl
