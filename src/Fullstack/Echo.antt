-- ===== src/Fullstack/Echo.antt =====
-- The server's echo brings the client its message back.
use obfs.Base.{
  ℕ, zero, suc, ◌+◌, ◌-◌, ◌≤◌, ◌<◌, ◌≡◌, ◌∙◌, refl, sym, ap, subst, List, [], ◌∷◌, ◌++◌,
  append_assoc, append-nil, length, length-append, some, Error, Outcome, ok, arith,
}
use obfs.Shaper.{FillFunc, Float64, Shaped, new_shaped_conn}
use obfs.Shaper.Start.{new_shaped_conn-IsUsable}
use obfs.Shaper.Frame.{Framed, Framed-nil}
use obfs.Shaper.Mode.{IsUsable, ValidAs, bytes_as}
use obfs.Shaper.Read.{Reader, read}
use obfs.Shaper.Read.Refines.{delivers, fails}
use obfs.Shaper.Write.{Runtime, Writer, write_direct, emit}
use obfs.Shaper.Write.Effects.{Covers, Delivered, write_direct-Delivered, emit-Covers}
use obfs.Shaper.Session.{reader_of}
use obfs.Shaper.Session.RoundTrip.{HoldsFor, ReadsFor, read-ReadsFor, reader_of-HoldsFor}
use obfs.Fullstack.{
  shaping, CopyEnd, source_ended, covered, written_back, copied_back, echo, read_on, read_whole,
}

module _ {W F : Type 0} (rt : Runtime W) (c : Shaped W F) where
  covered-Covers :
      (k : ℕ) (s : List ℕ) (st : Writer W)
      → IsUsable c
      → Covers rt c s st
      → Covers rt c s (covered rt c k st)
  unfolding covered
  covered-Covers zero s st v h = h
  covered-Covers (suc k) s st v h = covered-Covers k s (emit rt c st) v (emit-Covers rt c s st v h)

  -- The copy has ended with its source, and the wire carries `d` behind `s`.
  abbrev pub Echoes : List ℕ → Error → CopyEnd × Writer W → Type 0
  Echoes d e r = (r.0 ≡ source_ended e) × Covers rt c d r.1

  written_back-Echoes :
      (again : Writer W → CopyEnd × Writer W) (s out d : List ℕ) (e : Error) (o : Outcome ℕ)
      (st' : Writer W)
      → Delivered rt c out s o st'
      → (Covers rt c (s ++ out) st' → Echoes d e (again st'))
      → Echoes d e (written_back rt c again (o, st'))
  unfolding written_back
  written_back-Echoes again s out d e o st' h ih = rw h.returned (ih (h.carries, h.healthy))

  copied_back-Echoes :
      (again : Reader → Writer W → CopyEnd × Writer W) (s d : List ℕ) (e : Error) (n : ℕ)
      (st : Writer W) (o : Outcome (List ℕ)) (r : Reader)
      → IsUsable c
      → Covers rt c s st
      → length d ≤ n
      → ReadsFor c 32768 e d o r
      → ((s' d' : List ℕ) (st' : Writer W)
          → HoldsFor c r e d'
          → length d' < n
          → Covers rt c s' st'
          → Echoes (s' ++ d') e (again r st'))
      → Echoes (s ++ d) e (copied_back rt c again (o, r) st)
  unfolding copied_back
  copied_back-Echoes again s d e n st o r v k fits (fails q none_left left) ih =
      rw (q, none_left) (refl, rw append-nil k)
  copied_back-Echoes again s d e n st o r v k fits (delivers [] rest q cut room some_out left) ih =
      absurd (omega (arith, some_out (omega arith)))
  copied_back-Echoes again s d e n st o r v k fits (delivers (b ∷ bs) rest q cut room some_out left)
        ih =
      let written : Outcome ℕ × Writer W = write_direct rt c (b ∷ bs) st in
      rw q (
        written_back-Echoes (again r) s (b ∷ bs) (s ++ d) e written.0 written.1
          (write_direct-Delivered rt c (b ∷ bs) s st v k.0 k.1)
          (λ k'.
            subst (λ l. Echoes l e (again r written.1))
              (append_assoc s (b ∷ bs) rest ∙ ap (λ l. s ++ l) cut)
              (ih (s ++ (b ∷ bs)) rest written.1 left
                (omega (arith, ap length cut, length-append (b ∷ bs) rest)) k')))

  echo-Echoes :
      (covers : ℕ → ℕ) (n : ℕ) (s d : List ℕ) (e : Error) (r : Reader) (st : Writer W)
      → IsUsable c
      → HoldsFor c r e d
      → length d < n
      → Covers rt c s st
      → Echoes (s ++ d) e (echo rt c covers n r st)
  unfolding echo
  echo-Echoes covers zero s d e r st v h fits k = absurd (omega arith)
  echo-Echoes covers (suc n) s d e r st v h fits k =
      copied_back-Echoes (echo rt c covers n) s d e n (covered rt c (covers n) st)
        (read c 32768 r).0 (read c 32768 r).1 v (covered-Covers (covers n) s st v k) (omega arith)
        (read-ReadsFor c v r e d 32768 h)
        (λ s' d' st' h' f' k'. echo-Echoes covers n s' d' e (read c 32768 r).1 st' v h' f' k')

module _ {W F : Type 0} (c : Shaped W F) where
  read_on-whole :
      (again : ℕ → Reader → Outcome (List ℕ)) (d : List ℕ) (e : Error) (n room : ℕ)
      (o : Outcome (List ℕ)) (r : Reader)
      → length d ≡ suc room
      → suc room ≤ n
      → ReadsFor c (suc room) e d o r
      → ((d' : List ℕ) → HoldsFor c r e d' → length d' < n → again (length d') r ≡ ok d')
      → read_on c again (suc room) (o, r) ≡ ok d
  unfolding read_on
  read_on-whole again d e n room o r size fits (fails q none_left left) ih =
      absurd (omega (arith, ap length none_left))
  read_on-whole again d e n room o r size fits (delivers out rest q cut small some_out left) ih =
      let total : length out + length rest ≡ suc room =
        sym (length-append out rest) ∙ (ap length cut ∙ size) in
      let more : suc room - length out ≡ length rest = omega arith in
      let shorter : length rest < n = omega (arith, some_out (omega arith)) in
      rw (q, more, ih rest left shorter) (ap ok cut)

  -- ReadFull, with a buffer as long as what the wire carries, returns just that.
  read_whole_exact :
      (n : ℕ) (d : List ℕ) (e : Error) (r : Reader)
      → IsUsable c
      → HoldsFor c r e d
      → length d < n
      → read_whole c n (length d) r ≡ ok d
  unfolding read_whole
  read_whole_exact zero d e r v h fits = absurd (omega arith)
  read_whole_exact (suc n) [] e r v h fits = refl
  read_whole_exact (suc n) (b ∷ bs) e r v h fits =
      read_on-whole (read_whole c n) (b ∷ bs) e n (length bs) (read c (suc (length bs)) r).0
        (read c (suc (length bs)) r).1 refl (omega arith)
        (read-ReadsFor c v r e (b ∷ bs) (suc (length bs)) h)
        (λ d' h' f'. read_whole_exact n d' e (read c (suc (length bs)) r).1 v h' f')

module _ {W F : Type 0} (c : Shaped W F) where
  -- The wire of the client: its message, with `before` and `behind` cover cells around it.
  abbrev pub client_wire : Runtime W → ℕ → ℕ → List ℕ → Writer W → List ℕ
  client_wire rt before behind msg st =
      (covered rt c behind (write_direct rt c msg (covered rt c before st)).1).sink.sent

  client_wire-Framed :
      (rt : Runtime W) (before behind : ℕ) (msg : List ℕ) (st : Writer W)
      → IsUsable c
      → Covers rt c [] st
      → Framed
          (ValidAs c c.size_sampler)
          (bytes_as c c.size_sampler)
          (client_wire rt before behind msg st)
          msg
  client_wire-Framed rt before behind msg st v h =
      let (framed, healthy) = covered-Covers rt c before [] st v h in
      let written = write_direct-Delivered rt c msg [] (covered rt c before st) v framed healthy in
      (covered-Covers rt c behind msg (write_direct rt c msg (covered rt c before st)).1 v
        (written.carries, written.healthy)).0

  -- The example's client gets its message back, whatever it is: on fresh wires on which no write
  -- fails, with connections that are shaped by the example's policy, and with any numbers of cover
  -- cells of frontLoop around the client's write and in each round of the server's copy, the copy
  -- ends with its source, and ReadFull into a buffer of the message's length returns the message.
  pub read_whole-echo :
      (fl : Float64 F) (random_fill : FillFunc W)
      → new_shaped_conn fl random_fill shaping ≡ some c
      → (of_client of_server : Runtime W) (before behind : ℕ) (covers : ℕ → ℕ) (msg : List ℕ)
        (client server : Writer W) (e e' : Error) (n : ℕ)
      → client.sink.sent ≡ []
      → client.sink.faults ≡ []
      → server.sink.sent ≡ []
      → server.sink.faults ≡ []
      → length msg < n
      → ((echo of_server c covers n
            (reader_of (client_wire of_client before behind msg client) e)
            server).0
          ≡ source_ended e)
        × (read_whole c n (length msg) (
              reader_of
                (echo of_server c covers n
                  (reader_of (client_wire of_client before behind msg client) e)
                  server).1.sink.sent
                e')
            ≡ ok msg)
  read_whole-echo fl random_fill made of_client of_server before behind covers msg client server e
        e' n fc hc fs hs fits =
      let v : IsUsable c =
        (new_shaped_conn-IsUsable fl random_fill shaping c (omega arith) made).0 in
      let wire = client_wire of_client before behind msg client in
      let there = client_wire-Framed of_client before behind msg client v (rw fc Framed-nil, hc) in
      let (ended, (back, still)) =
        echo-Echoes of_server c covers n [] msg e (reader_of wire e) server v
          (reader_of-HoldsFor c wire e msg there) fits (rw fs Framed-nil, hs) in
      (ended, read_whole_exact c n msg e' _ v (reader_of-HoldsFor c _ e' msg back) fits)
