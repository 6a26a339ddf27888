-- ===== src/Shaper/Frame.antt =====
-- The wire format that both framings describe: a cell is a body and its padding.
use obfs.Base.{ℕ, ◌+◌, ◌<◌, ◌≡◌, refl, List, [], ◌∷◌, ◌++◌, put_uint16, length}
use obfs.Base.{append_assoc, append-nil, concat, concat-append, subst, All, All-append, sym, ◌∙◌}

pub record Frame : Type 0 where
  pub body : List ℕ
  pub pad : List ℕ

-- [2-byte length of the body][body][padding], of one size for all cells.
unfoldable pub fixed_bytes : Frame → List ℕ
fixed_bytes f = put_uint16 (length f.body) ++ (f.body ++ f.pad)

abbrev pub IsFixed : ℕ → Frame → Type 0
IsFixed cell_size f = (length f.body < 65536) × (2 + length f.body + length f.pad ≡ cell_size)

-- [2-byte length of the rest][2-byte length of the body][body][padding].
unfoldable pub morph_bytes : Frame → List ℕ
morph_bytes f =
    put_uint16 (2 + length f.body + length f.pad)
    ++ (put_uint16 (length f.body) ++ (f.body ++ f.pad))

abbrev pub IsMorph : Frame → Type 0
IsMorph f = 2 + length f.body + length f.pad < 65536

-- What a list of frames carries.
abbrev pub payload : List Frame → List ℕ
payload [] = []
payload (f ∷ fs) = f.body ++ payload fs

abbrev pub wire : (Frame → List ℕ) → List Frame → List ℕ
wire enc [] = []
wire enc (f ∷ fs) = enc f ++ wire enc fs

pub payload-append : (fs gs : List Frame) → payload (fs ++ gs) ≡ payload fs ++ payload gs
payload-append [] gs = refl
payload-append (f ∷ fs) gs = simp (payload-append fs gs, append_assoc)

pub wire-append :
    (enc : Frame → List ℕ) (fs gs : List Frame) → wire enc (fs ++ gs) ≡ wire enc fs ++ wire enc gs
wire-append enc [] gs = refl
wire-append enc (f ∷ fs) gs = simp (wire-append enc fs gs, append_assoc)

-- The bytes `bs` are valid frames that carry `data_bytes`: the abstract view of the wire.
pub record Framed (Valid : Frame → Type 0) (enc : Frame → List ℕ) (bs data_bytes : List ℕ)
    : Type 0 where
  pub frames : List Frame
  pub valid : All Valid frames
  pub on_wire : bs ≡ wire enc frames
  pub carries : payload frames ≡ data_bytes

module _ {Valid : Frame → Type 0} {enc : Frame → List ℕ} where
  pub Framed-nil : Framed Valid enc [] []
  Framed-nil = record { frames = []; valid = tt; on_wire = refl; carries = refl }

  pub Framed-cons :
      (f : Frame) {bs cs ds es : List ℕ}
      → Valid f
      → cs ≡ enc f ++ bs
      → f.body ++ ds ≡ es
      → Framed Valid enc bs ds
      → Framed Valid enc cs es
  Framed-cons f v p q x = record {
    frames = f ∷ x.frames;
    valid = (v, x.valid);
    on_wire = rw (p, x.on_wire);
    carries = rw x.carries q;
  }

  pub Framed-one : (f : Frame) {bs : List ℕ} → Valid f → bs ≡ enc f → Framed Valid enc bs f.body
  Framed-one f v p = Framed-cons f v (p ∙ sym (append-nil (enc f))) (append-nil f.body) Framed-nil

  pub Framed-append :
      {bs cs ds es : List ℕ}
      → Framed Valid enc bs ds
      → Framed Valid enc cs es
      → Framed Valid enc (bs ++ cs) (ds ++ es)
  Framed-append x y = record {
    frames = x.frames ++ y.frames;
    valid = All-append Valid x.frames y.frames x.valid y.valid;
    on_wire = rw (wire-append, x.on_wire, y.on_wire);
    carries = rw (payload-append, x.carries, y.carries);
  }

-- Cell by cell: the cells carry the parts, in order.
abbrev pub Parts : (List ℕ → List ℕ → Type 0) → List (List ℕ) → List (List ℕ) → Type 0
Parts P [] [] = Unit
Parts P [] (d ∷ ds) = ⊥
Parts P (c ∷ cs) [] = ⊥
Parts P (c ∷ cs) (d ∷ ds) = P c d × Parts P cs ds

Parts-append :
    (P : List ℕ → List ℕ → Type 0) (cs ds cs' ds' : List (List ℕ))
    → Parts P cs ds
    → Parts P cs' ds'
    → Parts P (cs ++ cs') (ds ++ ds')
Parts-append P [] [] cs' ds' h k = k
Parts-append P [] (d ∷ ds) cs' ds' h k = absurd h
Parts-append P (c ∷ cs) [] cs' ds' h k = absurd h
Parts-append P (c ∷ cs) (d ∷ ds) cs' ds' h k = (h.0, Parts-append P cs ds cs' ds' h.1 k)

module _ {Valid : Frame → Type 0} {enc : Frame → List ℕ} where
  Parts-Framed :
      (cs ds : List (List ℕ))
      → Parts (Framed Valid enc) cs ds
      → Framed Valid enc (concat cs) (concat ds)
  Parts-Framed [] [] h = Framed-nil
  Parts-Framed [] (d ∷ ds) h = absurd h
  Parts-Framed (c ∷ cs) [] h = absurd h
  Parts-Framed (c ∷ cs) (d ∷ ds) h = Framed-append h.0 (Parts-Framed cs ds h.1)

-- The cells are frames, one each, that carry `data_bytes` between them.
pub record Split (Valid : Frame → Type 0) (enc : Frame → List ℕ) (cells : List (List ℕ))
    (data_bytes : List ℕ) : Type 0 where
  pub parts : List (List ℕ)
  pub each : Parts (Framed Valid enc) cells parts
  pub whole : concat parts ≡ data_bytes

module _ {Valid : Frame → Type 0} {enc : Frame → List ℕ} where
  pub Split-nil : Split Valid enc [] []
  Split-nil = record { parts = []; each = tt; whole = refl }

  pub Split-cons :
      {cell d rest : List ℕ} {cells : List (List ℕ)} {data_bytes : List ℕ}
      → Framed Valid enc cell d
      → Split Valid enc cells rest
      → d ++ rest ≡ data_bytes
      → Split Valid enc (cell ∷ cells) data_bytes
  Split-cons {d} f x p = record { parts = d ∷ x.parts; each = (f, x.each); whole = rw x.whole p }

  pub Split-append :
      {cs cs' : List (List ℕ)} {d d' : List ℕ}
      → Split Valid enc cs d
      → Split Valid enc cs' d'
      → Split Valid enc (cs ++ cs') (d ++ d')
  Split-append {cs} {cs'} x y = record {
    parts = x.parts ++ y.parts;
    each = Parts-append (Framed Valid enc) cs x.parts cs' y.parts x.each y.each;
    whole = rw (concat-append, x.whole, y.whole);
  }

  pub Split-Framed :
      {cells : List (List ℕ)} {d : List ℕ}
      → Split Valid enc cells d
      → Framed Valid enc (concat cells) d
  Split-Framed {cells} x =
      subst (Framed Valid enc (concat cells)) x.whole (Parts-Framed cells x.parts x.each)

  pub Split-one : {cell d : List ℕ} → Framed Valid enc cell d → Split Valid enc (cell ∷ []) d
  Split-one {d} f = Split-cons f Split-nil (append-nil d)

  -- The first cell, and the others.
  pub Split-uncons :
      {cell : List ℕ} {cells : List (List ℕ)} {data_bytes : List ℕ}
      → Split Valid enc (cell ∷ cells) data_bytes
      → (d : List ℕ) × ((rest : List ℕ) × (Framed Valid enc cell d
            × (Split Valid enc cells rest × (d ++ rest ≡ data_bytes))))
  Split-uncons {cell} {cells} {data_bytes} x = taken x.parts x.each x.whole
    where
      taken :
          (ds : List (List ℕ))
          → Parts (Framed Valid enc) (cell ∷ cells) ds
          → concat ds ≡ data_bytes
          → (d : List ℕ) × ((rest : List ℕ) × (Framed Valid enc cell d
                × (Split Valid enc cells rest × (d ++ rest ≡ data_bytes))))
      taken [] h e = absurd h
      taken (d ∷ ds) h e =
          (d, (concat ds, (h.0, (record { parts = ds; each = h.1; whole = refl }, e))))

  pub Split-none : {data_bytes : List ℕ} → Split Valid enc [] data_bytes → data_bytes ≡ []
  Split-none {data_bytes} x = empty x.parts x.each x.whole
    where
      empty :
          (ds : List (List ℕ))
          → Parts (Framed Valid enc) [] ds
          → concat ds ≡ data_bytes
          → data_bytes ≡ []
      empty [] h e = sym e
      empty (d ∷ ds) h e = absurd h
