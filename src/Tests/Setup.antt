-- ===== src/Tests/Setup.antt =====
-- Runs of the routines that set up the descriptors, the screen, the interrupts and the timers.
use valeo.Base.{ℕ, ◌≡◌, refl, false, [], ◌∷◌}
use valeo.Base.Run.{Run, ok}
use valeo.Lock
use valeo.Arch.Pic.{outb, inb}
use valeo.Arch.Descriptor
use valeo.Arch.Descriptor.{Gate, Segment, Tables, gate}
use valeo.Arch.Video
use valeo.Arch.Video.{Video}
use valeo.Mm.Heap.{Heap, init, alloc, find_free, needed_for, split}
use valeo.Interrupt
use valeo.Interrupt.{State, Entries}
use valeo.Timer
use valeo.Timer.{Timers}

abbrev no_gates : ℕ → Gate
no_gates _ = record { base_low = 0; selector = 0; flags = 0; base_high = 0 }

abbrev flat : ℕ → Segment
flat _ = record {
  limit_low = 0xffff;
  base_low = 0;
  base_middle = 0;
  attributes = 0x9a;
  limit_high = 0xcf;
  base_high = 0;
}

set_gates_run :
    (Descriptor.set_call_gate 5 0xc0104567
        (Descriptor.set_task_gate 4 0xc0101234 (Descriptor.init no_gates flat))).idt
      4
    ≡ record { base_low = 0x1234; selector = 8; flags = 0x8500; base_high = 0xc010 }
unfolding gate Descriptor.set_call_gate Descriptor.set_task_gate Descriptor.init
set_gates_run = refl

set_access_run :
    ((Descriptor.set_access 0x10 0xf2 (Descriptor.init no_gates flat)).gdt 2).attributes ≡ 0xf2
unfolding Descriptor.set_access Descriptor.init
set_access_run = refl

abbrev blank : Video
blank = record { cells = λ _. 1; x = 3; y = 3; pos = 9; attr = 7; io = [] }

-- The cursor's scan lines are those that the size register names.
video_init_run :
    (Video.change_colour 9 (Video.init 0xef blank)).io
    ≡ outb 0x3d5 0
      ∷ outb 0x3d4 0xe
      ∷ outb 0x3d5 0
      ∷ outb 0x3d4 0xf
      ∷ outb 0x3d5 15
      ∷ outb 0x3d4 0xb
      ∷ outb 0x3d5 7
      ∷ outb 0x3d4 0xa
      ∷ inb 0x3d5
      ∷ outb 0x3d4 0x9
      ∷ []
unfolding Video.init Video.change_colour Video.cls Video.move_cursor
video_init_run = refl

abbrev small_heap : Heap
small_heap =
    init 0x10000 1 (record { mem = λ _. 0; heap = 0; pages = 0; alloc_head = 0; free_head = 0 })

abbrev fresh_state : State ℕ
fresh_state = record {
  lock_word = 7;
  mm_lock_word = 0;
  init_done = false;
  chains = λ _. 1 ∷ [];
  heap = small_heap;
  pic = record { mask = 0xffff; io = [] };
  log = [];
  interrupts_on = false;
  world = 0;
}

abbrev state_of : {A : Type 0} → Run (State ℕ) A → State ℕ
state_of (ok a s) = s
state_of _ = fresh_state

abbrev entries : Entries
entries = record { default_handler = 1; exception = λ i. i; irq = λ i. i }

interrupt_init_run :
    (state_of (Interrupt.init entries (Descriptor.init no_gates flat) fresh_state)).chains 15 ≡ []
unfolding Interrupt.init Interrupt.clear_chains
interrupt_init_run = refl

abbrev no_timers : Timers ℕ
no_timers = record { lock_word = 3; init_done = false; timers = []; ticks = 5; world = 0 }

-- The timer's handler, number 77, is attached to line 0, and the line is enabled.
timer_init_run : (state_of (Timer.init 1 77 no_timers fresh_state)).chains 0 ≡ 77 ∷ 1 ∷ []
unfolding Timer.init Interrupt.attach_handler Interrupt.enable_irq Interrupt.lock Interrupt.unlock
    Interrupt.mm_lock Interrupt.mm_unlock Lock.lock Lock.unlock init alloc find_free needed_for
    split
timer_init_run = refl

attach_timer_handler_run :
    Timer.attach_timer_handler 1 4 6 (no_timers, small_heap)
    ≡ ok tt (
      record no_timers { timers = record { time_out = 4; time_out_left = 4; handler = 6 } ∷ [] },
      split 24 0x10008 0 small_heap,
    )
unfolding Timer.attach_timer_handler Timer.lock Timer.unlock Lock.lock Lock.unlock init alloc
    find_free needed_for split
attach_timer_handler_run = refl
