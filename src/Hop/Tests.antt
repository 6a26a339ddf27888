-- ===== src/Hop/Tests.antt =====
-- Three addresses, at times after and before 1970.
use obfs.Base.{ℕ, ◌<◌, ◌≡◌, refl, List, [], ◌∷◌, length, pos, negsuc}
use obfs.Base.{ok, err, bad_period}
use obfs.Hop.{element, dialer}
use obfs.Hop.Window.{dialer-picks}

abbrev ports : List ℕ
ports = 8001 ∷ 8002 ∷ 8003 ∷ []

rotates : dialer ports (pos 10) (pos 45) ≡ ok 8002
unfolding dialer
rotates = refl

before_epoch : dialer ports (pos 10) (negsuc 14) ≡ ok 8003
unfolding dialer
before_epoch = refl

bad : dialer ports (pos 0) (pos 45) ≡ err bad_period
unfolding dialer
bad = refl

dialer-picks_example :
    (i : ℕ) × ((b : ℕ) × ((i < length ports)
        × ((element ports i ≡ ok b) × (dialer ports (pos 10) (negsuc 14) ≡ ok b))))
dialer-picks_example = dialer-picks 8001 (8002 ∷ 8003 ∷ []) 9 (negsuc 14)
