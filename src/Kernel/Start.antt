-- ===== src/Kernel/Start.antt =====
-- `Kernel_Main` of src/kernel-main.c, over the models of the components that it starts. Messages are left
-- out.
pub mod Started
use valeo.Base.{
  ℕ, ◌+◌, ◌-◌, ◌*◌, ◌/◌, ◌^◌, Bool, true, false, List, ◌++◌, Option, none, some, ltb, if◌then◌else◌,
}
use valeo.Base.Run.{Run, Cmd, ok, halted, looping, pure, get, modify, ◌>>=◌, ◌>>◌, zoom}
use valeo.Lock
use valeo.Syslog
use valeo.Resource
use valeo.Arch.Descriptor
use valeo.Arch.Descriptor.{Gate, Segment, Tables}
use valeo.Arch.Pic
use valeo.Arch.Pic.{PortIo}
use valeo.Arch.Pit
use valeo.Arch.Video
use valeo.Arch.Video.{Video}
use valeo.Interrupt
use valeo.Interrupt.{State, Entries}
use valeo.Timer
use valeo.Timer.{Timers}
use valeo.Mm.Page.{Paging, u32}
use valeo.Mm.Setup
use valeo.Mm.Setup.{Region, BootInfo, Sizes}
use valeo.Mm.Heap
use valeo.Mm.Heap.{Heap}
use valeo.Kernel.{parse_parameters}

-- `MM_KERNEL_ADDRESS`, `MM_KERNEL_PTMAP`, `MM_KERNEL_HEAP` and `MM_KERNEL_HEAPSIZE`, and the pages of the
-- kernel's stack, `MM_KERNEL_STACKSIZE`
abbrev pub kernel_address : ℕ
kernel_address = 0xf0000000

abbrev pub pt_map_address : ℕ
pt_map_address = 0xffc00000

abbrev pub heap_address : ℕ
heap_address = 0xf4000000

abbrev pub heap_pages : ℕ
heap_pages = (0xffc00000 - 0xf4000000) / 2 ^ 12

abbrev pub kernel_stack_pages : ℕ
kernel_stack_pages = 16

-- The first fields of `g_sKernel`
pub record Layout : Type 0 where
  pub kernel_size : ℕ
  pub kernel_end : ℕ
  pub stack : ℕ
  pub directory : ℕ
  pub table_map : ℕ

-- The first lines of `Kernel_Main`, with `KernelSize` of src/boot.S.
unfoldable pub layout_of : (kernel_size : ℕ) → Layout
layout_of size = record {
  kernel_size = size;
  directory = u32 (kernel_address + u32 (size * 2 ^ 12));
  stack = u32 (kernel_address + u32 (u32 (size + 1) * 2 ^ 12));
  kernel_end = u32 (kernel_address + u32 (u32 (size + kernel_stack_pages + 1) * 2 ^ 12));
  table_map = pt_map_address;
}

-- `sProcessPages_t` of include/mm.h
pub record ProcessPages : Type 0 where
  pub used : ℕ
  pub physical : ℕ → ℕ
  pub virtual : ℕ → ℕ
  pub next : ℕ

-- `MM_ZeroPageStruct` of src/mm_pp.c, with 32 entries in each array
unfoldable pub zero_page_struct : ProcessPages → ProcessPages
zero_page_struct p = record p {
  used = 0;
  physical = λ i. if ltb i 32 then 0 else p.physical i;
  virtual = λ i. if ltb i 32 then 0 else p.virtual i;
}

-- What `Kernel_Main` finds: the size of the kernel, the tables and entry points of src/boot.S, what the
-- boot loader gives, what two ports read as, and how `Timer_Handler` is known.
pub record Boot : Type 0 where
  pub kernel_size : ℕ
  pub idt : ℕ → Gate
  pub gdt : ℕ → Segment
  pub entries : Entries
  pub command_line : List ℕ
  pub entry_at : ℕ → Region
  pub info : BootInfo
  pub cursor_size : ℕ
  pub gate : ℕ
  pub timer_handler : ℕ

-- The state of the kernel. Interrupt handlers work on the timers; both have their copy of
-- `g_bKernelInitDone`, and the heap stands with the interrupts, which take memory from it.
pub record Machine (W : Type 0) : Type 0 where
  pub layout : Layout
  pub screen : Video
  pub syslog_lock : ℕ
  pub resource_lock : ℕ
  pub quiet : Bool
  pub tables : Tables
  pub paging : Paging
  pub sizes : Sizes
  pub process_pages : ProcessPages
  pub irqs : State (Timers W)
  pub pit : List PortIo

module _ {W : Type 0} where
  -- `Kernel_ParseParameters`
  abbrev pub set_quiet : Option Bool → Cmd (Machine W) (Unit {0})
  set_quiet none s = looping
  set_quiet (some quiet) s = ok tt (record s { quiet = quiet })

  pub parse : List ℕ → Cmd (Machine W) (Unit {0})
  parse text s = set_quiet (parse_parameters s.quiet text) s

  -- `MM_Init`: the pages, the words of the heap, which nothing between their stores and the end reads,
  -- and the kernel's process page struct
  pub mm_init : (entry_at : ℕ → Region) → BootInfo → Cmd (Machine W) (Unit {0})
  unfolding zero_page_struct
  mm_init entry_at info = do
    modify
        (λ s. record s { irqs = record (s.irqs) { mm_lock_word = Lock.init s.irqs.mm_lock_word } })
    s ← get
    sizes ←
        zoom Machine.paging (λ p s. record s { paging = p })
          (Setup.init entry_at info s.layout.kernel_size s.layout.kernel_end)
    modify (λ s. record s {
      sizes = sizes;
      layout = record (s.layout) { kernel_end = sizes.kernel_end };
      irqs = record (s.irqs) { heap = Heap.init heap_address heap_pages s.irqs.heap };
      process_pages = zero_page_struct s.process_pages;
    })

  abbrev pub on_irqs : {A : Type 0} → Cmd (State (Timers W)) A → Cmd (Machine W) A
  on_irqs c = zoom Machine.irqs (λ i s. record s { irqs = i }) c

  -- `Timer_Init`
  pub timer_init : (timer_handler : ℕ) → Cmd (Machine W) (Unit {0})
  timer_init timer_handler =
      on_irqs
        (do i ← get; t ← Timer.init 1 timer_handler i.world; modify (λ i. record i { world = t }))

  -- `Kernel_Main` up to `MM_Init`
  pub before_memory : Boot → Cmd (Machine W) (Unit {0})
  unfolding layout_of
  before_memory b = do
    modify (λ s. record s { layout = layout_of b.kernel_size })
    modify (λ s. record s { screen = Video.init b.cursor_size s.screen })
    modify (λ s. record s { syslog_lock = Syslog.init s.syslog_lock })
    modify (λ s. record s { tables = Descriptor.init b.idt b.gdt })
    parse b.command_line
    s ← get
    tables ← on_irqs (Interrupt.init b.entries s.tables)
    modify (λ s. record s { tables = tables })

  -- `Kernel_Main` from behind `MM_Init` to its idle loop; `sti` is the last line.
  pub after_memory : Boot → Cmd (Machine W) (Unit {0})
  after_memory b = do
    modify (λ s. record s { resource_lock = Resource.init s.resource_lock })
    modify (λ s. record s { irqs = record (s.irqs) { pic = Pic.init s.irqs.pic } })
    modify (λ s. record s { pit = s.pit ++ Pit.init b.gate })
    timer_init b.timer_handler
    modify (λ s. record s {
      irqs = record (s.irqs) {
        init_done = true;
        world = record (s.irqs.world) { init_done = true };
      };
    })
    modify (λ s. record s { irqs = record (s.irqs) { interrupts_on = true } })

  -- `Kernel_Main` up to its idle loop
  pub kernel_main : Boot → Cmd (Machine W) (Unit {0})
  kernel_main b = do before_memory b; mm_init b.entry_at b.info; after_memory b
