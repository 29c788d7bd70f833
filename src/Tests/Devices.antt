-- ===== src/Tests/Devices.antt =====
-- The hardware modules of src/arch/x86, src/interrupt.c and src/timer.c at concrete states.
use valeo.Base.{
  ℕ, ◌+◌, ◌*◌, ◌%◌, ◌≡◌, refl, arith, Bool, true, false, [], ◌∷◌, ◌==◌, ltb, if◌then◌else◌, map,
}
use valeo.Base.Run.{ok, update}
use valeo.Arch.Pic
use valeo.Arch.Pic.{Pic, lower, upper}
use valeo.Arch.Pic.Mask.{masked, disable_irq-masked}
use valeo.Arch.Descriptor.{Tables}
use valeo.Arch.Video.{Video, write_string, cls}
use valeo.Arch.Video.Screen.{OnScreen, Stays, write_string-Stays, cls_lem}
use valeo.Mm.Heap.{Heap, init, alloc, split, find_free, needed_for}
use valeo.Interrupt.{State, Handlers, Entries, handle, attach_handler}
use valeo.Interrupt.Dispatch.{Dispatched, handle-Dispatched, attach_handler_lem}
use valeo.Timer.{Timers, tick, timer_handler}
use valeo.Timer.Period.{after, fired, called, call_all, fresh, after-fresh, timer_handler_lem}

-- The mask at the start, all lines off but line 2.
abbrev quiet : Pic
quiet = record { mask = 0xfffb; io = [] }

disable_irq-masked_example :
    (masked (Pic.disable_irq 2 quiet).mask 2 ≡ 1)
    × (masked (Pic.mask_and_acknowledge 2 quiet).mask 2 ≡ 1)
disable_irq-masked_example = disable_irq-masked 2 2 quiet (omega arith)

abbrev tables : Tables
tables = record {
  idt = λ _. record { base_low = 0; selector = 0; flags = 0; base_high = 0 };
  gdt = λ _. record {
    limit_low = 0xffff;
    base_low = 0;
    base_middle = 0;
    attributes = 0x9a;
    limit_high = 0xcf;
    base_high = 0;
  };
}

-- The cursor in the last column of the last row.
abbrev at_end : Video
at_end = record {
  cells = λ j. if ltb j 4000 then j % 256 else 7;
  x = 79;
  y = 24;
  pos = 3998;
  attr = 7;
  io = [];
}

at_end-OnScreen : OnScreen at_end
at_end-OnScreen = record { column = omega arith; row = omega arith; place = refl }

write_string-Stays_example : Stays at_end (write_string (b'o' ∷ b'k' ∷ b'\n' ∷ []) at_end)
write_string-Stays_example = write_string-Stays (b'o' ∷ b'k' ∷ b'\n' ∷ []) at_end at_end-OnScreen

cls_lem_example :
    OnScreen (cls at_end)
    × ((cls at_end).x ≡ 0)
    × ((cls at_end).y ≡ 0)
    × ((j : ℕ) → (cls at_end).cells j ≡ (if ltb j 4000 then 0 else at_end.cells j))
cls_lem_example = cls_lem at_end

abbrev at_start : Video
at_start = record at_end { x = 0; y = 1; pos = 160 }

at_start-OnScreen : OnScreen at_start
at_start-OnScreen = record { column = omega arith; row = omega arith; place = refl }

-- Handler 2 takes the interrupt, and each handler adds its number.
abbrev handlers : Handlers ℕ
handlers h w = (h == 2, w + h)

-- A heap of one page, and the same with a node cut off
abbrev heap : Heap
heap = init 0x10000 1 (record { mem = λ _. 0; heap = 0; pages = 0; alloc_head = 0; free_head = 0 })

heap_left : Heap
heap_left = split 16 0x10008 0 heap

node_run : alloc 3 8 heap ≡ ok 0x10010 heap_left
unfolding init alloc find_free needed_for split heap_left
node_run = refl

abbrev system : Bool → State ℕ
system done = record {
  lock_word = 0;
  mm_lock_word = 0;
  init_done = done;
  heap = heap;
  chains = λ irq. if irq == 1 then 3 ∷ 2 ∷ 1 ∷ [] else [];
  pic = quiet;
  log = [];
  interrupts_on = done;
  world = 10;
}

handle-Dispatched_example :
    (t : State ℕ) × (handle handlers 5 1 (system false) ≡ ok tt t)
    × Dispatched handlers 1 (system false) t
handle-Dispatched_example = handle-Dispatched handlers 5 1 (system false) refl

attach_handler_lem_example :
    attach_handler 3 1 9 (system true)
    ≡ ok true (record (system true) {
      heap = heap_left;
      chains = update (system true).chains 1 (9 ∷ 3 ∷ 2 ∷ 1 ∷ []);
      interrupts_on = true;
    })
attach_handler_lem_example = attach_handler_lem 1 9 (system true) 2 0x10010 heap_left node_run

abbrev entries : Entries
entries = record {
  default_handler = 0xc0100000;
  exception = λ i. 0xc0101000 + i % 256 * 16;
  irq = λ i. 0xc0102000 + i % 256 * 16;
}

after-fresh_example :
    (after 7 (fresh 3 4) ≡ record { time_out = 3; time_out_left = 2; handler = 4 })
    × (fired 7 (fresh 3 4) ≡ 2)
after-fresh_example = after-fresh 3 4 7 (omega arith) (omega arith)

abbrev timers : Timers ℕ
timers = record {
  lock_word = 0;
  init_done = true;
  timers = fresh 1 5 ∷ record { time_out = 3; time_out_left = 2; handler = 6 } ∷ fresh 0 7 ∷ [];
  ticks = 0;
  world = 0;
}

timer_handler_lem_example :
    timer_handler (λ h w. w * 10 + h) 2 timers
    ≡ ok true (record timers {
      timers = map (λ t. (tick t).0) timers.timers;
      world = call_all (λ h w. w * 10 + h) (called timers.timers) 0;
    })
timer_handler_lem_example = timer_handler_lem (λ h w. w * 10 + h) 1 timers
