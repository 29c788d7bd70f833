-- ===== src/Tests/Start.antt =====
-- `MM_Init` of src/mm.c and `Kernel_Main` of src/kernel-main.c on a concrete memory map.
use valeo.Base.{ℕ, false, List, [], ◌∷◌, ◌==◌, leb, if◌then◌else◌}
use valeo.Kernel.Start.{Boot, Machine}
use valeo.Kernel.Start.Started.{Started}
use valeo.Mm.Page.{Paging}
use valeo.Mm.Setup.{Region, BootInfo}

-- Six pages from 1 MB
abbrev main_memory : Region
main_memory = record {
  size = 20;
  base_low = 0x100000;
  base_high = 0;
  length_low = 0x6000;
  length_high = 0;
  kind = 1;
}

abbrev boot_info : BootInfo
boot_info = record { flags = 64; map_length = 24; map_addr = 0x9000 }

-- The directory of src/boot.S, with its own last entry
abbrev tables : Paging
tables = record {
  pt_map = λ i.
      if i == 0xffc00
      then 0x213003
      else if i == 0xfffc0
      then 0x201003
      else if i == 0xfffff
      then 0x200003
      else if leb 0xffc00 i
      then 2
      else 0;
  fps = λ _. 0;
  fps_index = 0;
  effects = [];
}

abbrev map_at : ℕ → Region
map_at p = main_memory

abbrev entries : List Region
entries = main_memory ∷ []

abbrev free_left : List ℕ
free_left = 0x102000 ∷ []

-- The kernel of two pages, entered with "k quiet" on its command line
abbrev boot : Boot
boot = record {
  kernel_size = 2;
  idt = λ _. record { base_low = 0; selector = 8; flags = 0; base_high = 0 };
  gdt = λ _. record {
    limit_low = 0;
    base_low = 0;
    base_middle = 0;
    attributes = 0;
    limit_high = 0;
    base_high = 0;
  };
  entries = record {
    default_handler = 0xf0001000;
    exception = λ i. 0xf0001100;
    irq = λ i. 0xf0001200;
  };
  command_line = b'k' ∷ b' ' ∷ b'q' ∷ b'u' ∷ b'i' ∷ b'e' ∷ b't' ∷ [];
  entry_at = map_at;
  info = boot_info;
  cursor_size = 0;
  gate = 0x20;
  timer_handler = 7;
}

abbrev entered : Machine ℕ
entered = record {
  layout = record { kernel_size = 0; kernel_end = 0; stack = 0; directory = 0; table_map = 0 };
  screen = record { cells = λ _. 0; x = 0; y = 0; pos = 0; attr = 7; io = [] };
  syslog_lock = 0;
  resource_lock = 0;
  quiet = false;
  tables = record { idt = boot.idt; gdt = boot.gdt };
  paging = tables;
  sizes = record { size_pages = 0; size_kb = 0; kernel_end = 0 };
  process_pages = record { used = 0; physical = λ _. 0; virtual = λ _. 0; next = 0 };
  irqs = record {
    lock_word = 0;
    mm_lock_word = 0;
    init_done = false;
    chains = λ _. [];
    heap = record { mem = λ _. 0; heap = 0; pages = 0; alloc_head = 0; free_head = 0 };
    pic = record { mask = 0xffff; io = [] };
    log = [];
    interrupts_on = false;
    world = record { lock_word = 0; init_done = false; timers = []; ticks = 0; world = 0 };
  };
  pit = [];
}
