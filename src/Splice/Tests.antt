-- ===== src/Splice/Tests.antt =====
-- A splice whose client ends first.
use obfs.Base.{refl, [], ◌∷◌}
use obfs.Splice.{Splice, splice, copied_all, reads, ends, writes, upward, Spliced, not_yet, and_on}

abbrev client_ended : Splice
client_ended = record (splice [] [] (9 ∷ [])) {
  up = record { source = []; copier = copied_all; written = 7 ∷ 1 ∷ 2 ∷ [] };
}

copies_client : Spliced (splice (1 ∷ 2 ∷ []) (7 ∷ []) (9 ∷ [])) client_ended
copies_client =
    and_on
      (and_on (and_on not_yet (upward (reads (1 ∷ 2 ∷ []) [] refl refl refl)))
        (upward (writes (1 ∷ 2 ∷ []) refl refl)))
      (upward (ends refl refl))
