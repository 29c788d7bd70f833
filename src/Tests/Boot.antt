-- ===== src/Tests/Boot.antt =====
-- The start of the kernel at concrete inputs: the memory map, the parameters, the log, the timer chip.
use valeo.Base.{◌≡◌, refl, false, List, [], ◌∷◌, some, ◌||◌}
use valeo.Arch.Pic.{outb, inb}
use valeo.Arch.Pit
use valeo.Arch.Video.{Video}
use valeo.Mm.Page.{Paging}
use valeo.Mm.Setup.{Region, is_ram, start, pages_in, is_reserved}
use valeo.Mm.Setup.Stacked.{usable}
use valeo.Kernel.{parse_parameters}
use valeo.Kernel.Quiet.{has_quiet, parse_parameters_lem}

pit_run :
    Pit.init 0x20
    ≡ inb 0x61
      ∷ outb 0x61 0x21
      ∷ outb 0x43 0x34
      ∷ outb 0x40 0xa9
      ∷ outb 0x40 4
      ∷ outb 0x43 0x74
      ∷ outb 0x42 0
      ∷ outb 0x42 0
      ∷ outb 0x43 0xb4
      ∷ outb 0x42 0
      ∷ outb 0x42 0
      ∷ []
unfolding Pit.init
pit_run = refl

stop_run : Pit.stop_timer ≡ outb 0x43 0x34 ∷ outb 0x40 0 ∷ outb 0x40 0 ∷ []
unfolding Pit.stop_timer
stop_run = refl

-- Low memory, a hole, and memory from 1 MB.
abbrev low_ram : Region
low_ram = record {
  size = 20;
  base_low = 0;
  base_high = 0;
  length_low = 0x2000;
  length_high = 0;
  kind = 1;
}

abbrev hole : Region
hole = record {
  size = 20;
  base_low = 0x9fc00;
  base_high = 0;
  length_low = 0x400;
  length_high = 0;
  kind = 2;
}

abbrev high_ram : Region
high_ram = record {
  size = 20;
  base_low = 0x100000;
  base_high = 0;
  length_low = 0x5000;
  length_high = 0;
  kind = 1;
}

abbrev memory_map : List Region
memory_map = low_ram ∷ hole ∷ high_ram ∷ []

abbrev before : Paging
before = record { pt_map = λ _. 0; fps = λ _. 0; fps_index = 0; effects = [] }

-- A kernel of two pages: five pages are left.
usable_run :
    usable (is_reserved 2 0x301000) memory_map ≡ 0 ∷ 0x1000 ∷ 0x102000 ∷ 0x103000 ∷ 0x104000 ∷ []
unfolding usable is_reserved is_ram start pages_in
usable_run = refl

parse_parameters_lem_example :
    parse_parameters false (b'k' ∷ b' ' ∷ b'q' ∷ b'u' ∷ b'i' ∷ b'e' ∷ b't' ∷ [])
    ≡ some (false || has_quiet (b'k' ∷ b' ' ∷ b'q' ∷ b'u' ∷ b'i' ∷ b'e' ∷ b't' ∷ []))
parse_parameters_lem_example =
    parse_parameters_lem false (b'k' ∷ b' ' ∷ b'q' ∷ b'u' ∷ b'i' ∷ b'e' ∷ b't' ∷ [])

abbrev screen : Video
screen = record { cells = λ _. 0; x = 70; y = 24; pos = 3980; attr = 7; io = [] }
