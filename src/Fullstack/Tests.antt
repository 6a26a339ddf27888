-- ===== src/Fullstack/Tests.antt =====
-- A short message, over cells of 512 bytes.
use obfs.Base.{ℕ, ◌≡◌, refl, List, [], ◌∷◌, pos, none, some, closed, eof, ok, arith, length}
use obfs.Fill.{zero_filler, zero_fill}
use obfs.Wire.{base_write}
use obfs.Shaper.{Shaped, new_shaped_conn}
use obfs.Shaper.Fixed.{fixed_cells, fixed_cover_cell}
use obfs.Shaper.Write.{Writer, write_direct, emit}
use obfs.Shaper.Session.{reader_of}
use obfs.Shaper.Tests.{clockwork, numbers}
use obfs.Fullstack.{shaping, source_ended, covered, echo, read_whole}
use obfs.Fullstack.Echo.{client_wire, read_whole-echo}

abbrev wide : Shaped ℕ ℕ
wide = record {
  cell_size = 512;
  max_data = 510;
  filler = zero_filler;
  jitter = pos 0;
  size_sampler = none;
  delay_sampler = none;
  pace = none;
  cover = none;
  front_loop = some (record { window = pos 500000000; max_count = pos 8 });
}

abbrev fresh : Writer ℕ
fresh = record { world = 0; sink = record { sent = []; faults = [] }; last_write = 0 }

shapes : new_shaped_conn numbers zero_filler shaping ≡ some wide
unfolding new_shaped_conn
shapes = refl

abbrev msg : List ℕ
msg = b'h' ∷ b'i' ∷ []

abbrev covers : ℕ → ℕ
covers n = 1

wire_of_client : length (client_wire wide clockwork 1 0 msg fresh) ≡ 1024
unfolding write_direct fixed_cells fixed_cover_cell covered emit base_write zero_fill
wire_of_client = refl

read_whole-echo_example :
    ((echo clockwork wide covers 3
        (reader_of (client_wire wide clockwork 1 2 msg fresh) eof)
        fresh).0
      ≡ source_ended eof)
    × (read_whole wide 3 2 (
          reader_of
            (echo clockwork wide covers 3
              (reader_of (client_wire wide clockwork 1 2 msg fresh) eof)
              fresh).1.sink.sent
            closed)
        ≡ ok msg)
read_whole-echo_example =
    read_whole-echo wide numbers zero_filler shapes clockwork clockwork 1 2 covers msg fresh fresh
      eof closed 3 refl refl refl refl (omega arith)
