-- ===== src/Splice/Transparent.antt =====
-- Each side of a splice is sent the bytes of the other, in order and unchanged.
use obfs.Base.{
  ℕ, ◌≡◌, ◌∙◌, refl, sym, ap, subst, List, [], ◌++◌, append_assoc, Bool, true, false, not, ◌||◌,
}
use obfs.Splice.{
  Copier, reading, writing, copied_all, broken, parted, Pipe, Copies, reads, ends, fails, writes,
  breaks, Splice, splice, Splicing, upward, downward, up_parts, down_parts, Spliced, not_yet,
  and_on,
}

-- What the source has delivered and the target has not been sent.
abbrev pub Between : Copier → List ℕ → List ℕ → Type 0
Between reading lost source = lost ≡ []
Between (writing chunk) lost source = lost ≡ chunk
Between copied_all lost source = (lost ≡ []) × (source ≡ [])
Between broken lost source = Unit {0}
Between parted lost source = Unit {0}

-- What has been written is a front of `whole`; nothing of the rest is lost before a call fails.
pub record Carries (whole : List ℕ) (p : Pipe) : Type 0 where
  pub lost : List ℕ
  pub split : p.written ++ (lost ++ p.source) ≡ whole
  pub between : Between p.copier lost p.source

Copies-Carries :
    {whole : List ℕ} {a b : Bool} {p q : Pipe} → Copies a b p q → Carries whole p → Carries whole q
Copies-Carries {p} (reads chunk rest c o e) h = record {
  lost = chunk;
  split =
      let none_lost : h.lost ≡ [] = subst (λ k. Between k h.lost p.source) c h.between in
      ap (λ l. p.written ++ l) (sym (e))
      ∙ (ap (λ l. p.written ++ (l ++ p.source)) (sym none_lost) ∙ h.split);
  between = refl;
}
Copies-Carries {p} (ends c e) h = record {
  lost = h.lost;
  split = h.split;
  between = (subst (λ k. Between k h.lost p.source) c h.between, e);
}
Copies-Carries (fails c o) h = record { lost = h.lost; split = h.split; between = tt }
Copies-Carries {p} (writes chunk c o) h = record {
  lost = [];
  split =
      let held : h.lost ≡ chunk = subst (λ k. Between k h.lost p.source) c h.between in
      append_assoc p.written chunk p.source
      ∙ (ap (λ l. p.written ++ (l ++ p.source)) (sym held) ∙ h.split);
  between = refl;
}
Copies-Carries {p} (breaks part rest c) h = record {
  lost = rest;
  split =
      let held : h.lost ≡ part ++ rest = subst (λ k. Between k h.lost p.source) c h.between in
      append_assoc p.written part (rest ++ p.source)
      ∙ (ap (λ l. p.written ++ l) (sym (append_assoc part rest p.source))
          ∙ (ap (λ l. p.written ++ (l ++ p.source)) (sym held) ∙ h.split));
  between = tt;
}

parted-Carries :
    {whole : List ℕ} (p : Pipe) → Carries whole p → Carries whole (record p { copier = parted })
parted-Carries p h = record { lost = h.lost; split = h.split; between = tt }

-- closeBoth has been called.
abbrev pub has_parted : Copier → Bool
has_parted reading = false
has_parted (writing chunk) = false
has_parted copied_all = false
has_parted broken = false
has_parted parted = true

Copies-has_parted :
    {a b : Bool} {p q : Pipe} → Copies a b p q → has_parted q.copier ≡ has_parted p.copier
Copies-has_parted (reads chunk rest c o e) = rw c refl
Copies-has_parted (ends c e) = rw c refl
Copies-has_parted (fails c o) = rw c refl
Copies-has_parted (writes chunk c o) = rw c refl
Copies-has_parted (breaks part rest c) = rw c refl

-- The connections are open until a goroutine calls closeBoth, and then both are closed.
abbrev pub still_open : Copier → Copier → Bool
still_open j k = not (has_parted j || has_parted k)

still_open-parted : (j : Copier) → still_open j parted ≡ false
still_open-parted reading = refl
still_open-parted (writing chunk) = refl
still_open-parted copied_all = refl
still_open-parted broken = refl
still_open-parted parted = refl

pub record Transparent (from_client from_site : List ℕ) (s : Splice) : Type 0 where
  pub upstream : Carries from_client s.up
  pub downstream : Carries from_site s.down
  pub client_closes : s.client_open ≡ still_open s.up.copier s.down.copier
  pub site_closes : s.site_open ≡ still_open s.up.copier s.down.copier

module _ {from_client from_site : List ℕ} where
  Splicing-Transparent :
      {s t : Splice}
      → Splicing s t
      → Transparent from_client from_site s
      → Transparent from_client from_site t
  Splicing-Transparent {s} (upward x) h = record {
    upstream = Copies-Carries x h.upstream;
    downstream = h.downstream;
    client_closes = rw (Copies-has_parted x) h.client_closes;
    site_closes = rw (Copies-has_parted x) h.site_closes;
  }
  Splicing-Transparent {s} (downward x) h = record {
    upstream = h.upstream;
    downstream = Copies-Carries x h.downstream;
    client_closes = rw (Copies-has_parted x) h.client_closes;
    site_closes = rw (Copies-has_parted x) h.site_closes;
  }
  Splicing-Transparent {s} (up_parts c) h = record {
    upstream = parted-Carries s.up h.upstream;
    downstream = h.downstream;
    client_closes = refl;
    site_closes = refl;
  }
  Splicing-Transparent {s} (down_parts c) h = record {
    upstream = h.upstream;
    downstream = parted-Carries s.down h.downstream;
    client_closes = sym (still_open-parted s.up.copier);
    site_closes = sym (still_open-parted s.up.copier);
  }

  Spliced-Transparent :
      {s t : Splice}
      → Spliced s t
      → Transparent from_client from_site s
      → Transparent from_client from_site t
  Spliced-Transparent not_yet h = h
  Spliced-Transparent (and_on x e) h = Splicing-Transparent e (Spliced-Transparent x h)

-- In every interleaving of the two goroutines: what has been written to the site is what had been
-- sent before and a front of what the client's connection delivers, and what has been written to the
-- client is a front of what the site delivers; nothing is lost between them before a call fails; and
-- the connections are open until a goroutine calls closeBoth, which closes both.
pub splice-Transparent :
    (from_client sent from_site : List ℕ) {t : Splice}
    → Spliced (splice from_client sent from_site) t
    → Transparent (sent ++ from_client) from_site t
splice-Transparent from_client sent from_site x = Spliced-Transparent x (record {
  upstream = record { lost = []; split = refl; between = refl };
  downstream = record { lost = []; split = refl; between = refl };
  client_closes = refl;
  site_closes = refl;
})
