-- ===== src/Kernel/Start/Started.antt =====
-- What holds in the idle loop of `Kernel_Main` of src/kernel-main.c.
use valeo.Base.{ℕ, ◌+◌, ◌-◌, ◌*◌, ◌^◌, ◌<◌, ◌≡◌, true, List, [], ◌∷◌, ◌++◌, ◌||◌, if◌then◌else◌}
use valeo.Base.Run.{update}
use valeo.Lock
use valeo.Syslog
use valeo.Resource
use valeo.Arch.Descriptor
use valeo.Arch.Pic
use valeo.Arch.Pit
use valeo.Arch.Video
use valeo.Interrupt
use valeo.Interrupt.{State, Entries, clear_chains, init_gates}
use valeo.Interrupt.Gates.{entry_of}
use valeo.Arch.Descriptor.Fields.{handler_of}
use valeo.Timer
use valeo.Timer.{Timers}
use valeo.Mm.Page.{Paging}
use valeo.Mm.Setup.{Sizes, init}
use valeo.Mm.Setup.Steps.{SetUp}
use valeo.Mm.Heap
use valeo.Mm.Heap.{Heap, split}
use valeo.Mm.Heap.Chain.{Has}
use valeo.Kernel.Quiet.{has_quiet}
use valeo.Kernel.Start.{heap_address, heap_pages, layout_of, Boot, Machine, zero_page_struct}

-- The interrupts once `Timer_Init` has run
abbrev with_timer : {W : Type 0} → (timer_handler : ℕ) → Heap → State (Timers W) → State (Timers W)
with_timer h heap i = record i {
  heap = heap;
  chains = update i.chains 0 (h ∷ i.chains 0);
  pic = Pic.enable_irq 0 i.pic;
  interrupts_on = if i.init_done then true else i.interrupts_on;
  world = record (i.world) { lock_word = 0; timers = []; ticks = 0 };
}

-- The heap behind `MM_AllocInit` and the allocation of one node of 8 bytes
abbrev first_heap : Heap → Heap
first_heap h = Heap.init heap_address heap_pages h

abbrev node_heap : Heap → Heap
node_heap h = split 16 (heap_address + 8) 0 (first_heap h)

-- The state of the idle loop, `t`, from that in which the kernel was entered.
pub record Started {W : Type 0} (b : Boot) (n heap_table heap_page screen_table : ℕ) (left : List ℕ)
    (s t : Machine W) : Type 0 where
  pub pages :
      SetUp n
        (layout_of b.kernel_size).kernel_end
        heap_table
        heap_page
        screen_table
        left
        t.sizes
        s.paging
        t.paging
  pub kernel_end : t.layout.kernel_end ≡ t.sizes.kernel_end
  pub heap :
      Has t.irqs.heap
        ((heap_address + 24, heap_pages * 2 ^ 12 - 32) ∷ [])
        ((heap_address + 8, 16) ∷ (heap_address, 0) ∷ [])
  pub gates : (j : ℕ) → j < 256 → handler_of (t.tables.idt j) ≡ entry_of b.entries j
  pub timer_line : t.irqs.chains 0 ≡ b.timer_handler ∷ []
  pub other_lines : (j : ℕ) → 0 < j → j < 16 → t.irqs.chains j ≡ []
  pub no_timers : t.irqs.world.timers ≡ []
  pub irq_lock : t.irqs.lock_word ≡ 0
  pub mm_lock : t.irqs.mm_lock_word ≡ 0
  pub timer_lock : t.irqs.world.lock_word ≡ 0
  pub syslog_lock : t.syslog_lock ≡ 0
  pub resource_lock : t.resource_lock ≡ 0
  pub quiet : t.quiet ≡ (s.quiet || has_quiet b.command_line)
  pub init_done : t.irqs.init_done ≡ true
  pub interrupts_on : t.irqs.interrupts_on ≡ true

module _ {W : Type 0} (b : Boot) (s : Machine W) where
  abbrev early : Machine W
  early = record s {
    layout = layout_of b.kernel_size;
    screen = Video.init b.cursor_size s.screen;
    syslog_lock = 0;
    quiet = s.quiet || has_quiet b.command_line;
    tables = init_gates b.entries (Descriptor.init b.idt b.gdt);
    irqs = record (s.irqs) { lock_word = 0; chains = clear_chains 16 s.irqs.chains };
  }

  abbrev late : Heap → Machine W → Machine W
  late heap m = record m {
    resource_lock = 0;
    pit = m.pit ++ Pit.init b.gate;
    irqs = record (m.irqs) {
      heap = heap;
      chains = update m.irqs.chains 0 (b.timer_handler ∷ m.irqs.chains 0);
      pic = Pic.enable_irq 0 (Pic.init m.irqs.pic);
      init_done = true;
      interrupts_on = true;
      world = record (m.irqs.world) { lock_word = 0; timers = []; ticks = 0; init_done = true };
    };
  }

  -- The state behind `MM_Init`
  abbrev with_memory : Sizes → Paging → Machine W
  with_memory z p = record early {
    irqs = record (early.irqs) { mm_lock_word = 0; heap = first_heap s.irqs.heap };
    paging = p;
    sizes = z;
    layout = record (early.layout) { kernel_end = z.kernel_end };
    process_pages = zero_page_struct s.process_pages;
  }

  abbrev WithMemory : (n heap_table heap_page screen_table : ℕ) (left : List ℕ) → Machine W → Type 0
  WithMemory n heap_table heap_page screen_table left t =
      (z : Sizes) × (p : Paging) × (t ≡ with_memory z p)
      × SetUp n (layout_of b.kernel_size).kernel_end heap_table heap_page screen_table left z
          s.paging p
