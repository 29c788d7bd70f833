-- ===== src/Mm/Setup.antt =====
-- `MM_Init` of src/mm.c: the scan of the boot loader's memory map, the free page stack made from it, and
-- the tables. Messages are left out. The heap's own words and the process page struct stand in
-- `valeo.Kernel.Start`; the page fault that the first store to the heap raises is here.
pub mod Stacked
pub mod Reserved
pub mod Steps
pub mod Complete
use valeo.Base.{
  ℕ, zero, suc, ◌+◌, ◌-◌, ◌*◌, ◌/◌, ◌^◌, Bool, true, false, List, [], ◌∷◌, Option, none, some, ◌==◌,
  ltb, leb, ◌&&◌, ◌||◌, bit_and, if◌then◌else◌,
}
use valeo.Base.Run.{Cmd, pure, halt, get, modify, ◌>>=◌, ◌>>◌, update}
use valeo.Mm.Page
use valeo.Exception.{page_fault}
use valeo.Mm.Page.{
  Paging, Mm, window, set_pte, u32, offset_mask, page_size, entries_per_page, emit, reload_cr3, map,
  unmap,
}

-- `sMBMemoryMap_t` of include/multiboot.h
pub record Region : Type 0 where
  pub size : ℕ
  pub base_low : ℕ
  pub base_high : ℕ
  pub length_low : ℕ
  pub length_high : ℕ
  pub kind : ℕ

-- The entries that `sMMap` points to in turn: each says how far the next one is.
unfoldable pub regions : (entry_at : ℕ → Region) (count addr : ℕ) → List Region
regions entry_at zero addr = []
regions entry_at (suc count) addr =
    entry_at addr ∷ regions entry_at count (u32 (addr + u32 ((entry_at addr).size + 4)))

-- `nAddr` and `nLen` of an entry
unfoldable pub start : Region → ℕ
start r = u32 (u32 (r.base_high * 2 ^ 8) + r.base_low)

unfoldable pub pages_in : Region → ℕ
pages_in r = u32 (u32 (r.length_high * 2 ^ 8) + r.length_low) / 2 ^ 12

unfoldable pub is_ram : Region → Bool
is_ram r = r.kind == 1

-- The first loop, with the pages so far; `none` is the halt at an entry not on a page boundary.
pub count_pages : (pages : ℕ) → List Region → Option ℕ
unfolding start pages_in is_ram
count_pages pages [] = some pages
count_pages pages (r ∷ rest) =
    let more = count_pages (u32 (pages + pages_in r)) rest in
    let same = count_pages pages rest in
    if is_ram r then (if bit_and (start r) offset_mask == 0 then more else none) else same

-- The three tests of the second loop: the kernel, its stack and page directory, and the free page
-- stack itself.
unfoldable pub is_reserved : (kernel_size fps_end addr : ℕ) → Bool
is_reserved kernel_size fps_end addr =
    leb 0x100000 addr && ltb addr (u32 (0x100000 + u32 (kernel_size * 2 ^ 12)))
    || (leb 0x200000 addr && ltb addr (0x202000 + 16 * page_size)
        || (leb 0x300000 addr && ltb addr fps_end))

-- `m_psMemory_FPS` and `m_nMemory_FPSIndex` while the stack is made.
pub record Filling : Type 0 where
  pub fps : ℕ → ℕ
  pub index : ℕ

-- One page: `m_nMemory_FPSIndex++` where it is not reserved.
pub push : (reserved : ℕ → Bool) (addr : ℕ) → Filling → Filling
push reserved addr f =
    if reserved addr
    then f
    else record { fps = update f.fps f.index addr; index = u32 (f.index + 1) }

-- The loop over the pages of an entry.
pub push_pages : (reserved : ℕ → Bool) (count addr : ℕ) → Filling → Filling
unfolding push
push_pages reserved zero addr f = f
push_pages reserved (suc count) addr f =
    push_pages reserved count (u32 (addr + page_size)) (push reserved addr f)

-- The second loop.
pub push_regions : (reserved : ℕ → Bool) → List Region → Filling → Filling
unfolding push_pages start pages_in is_ram
push_regions reserved [] f = f
push_regions reserved (r ∷ rest) f =
    push_regions reserved rest
      (if is_ram r then push_pages reserved (pages_in r) (start r) f else f)

-- The second loop and the step down to the last entry.
pub fill : (reserved : ℕ → Bool) → List Region → Mm (Unit {0})
unfolding push_regions
fill reserved rs = modify (λ s.
    let f = push_regions reserved rs (record { fps = s.fps; index = 0 }) in
    record s { fps = f.fps; fps_index = u32 (f.index + 2 ^ 32 - 1) })

-- The fields of `g_sKernel` that `MM_Init` sets besides those of the pages.
pub record Sizes : Type 0 where
  pub size_pages : ℕ
  pub size_kb : ℕ
  pub kernel_end : ℕ

-- The boot information: `m_nFlags`, `m_nMMAPLength` and `m_nMMAPAddr`.
pub record BootInfo : Type 0 where
  pub flags : ℕ
  pub map_length : ℕ
  pub map_addr : ℕ

-- `MM_KERNEL_HEAP` and `MM_KERNEL_HEAPEND`
abbrev pub heap_start : ℕ
heap_start = 0xf4000000

abbrev pub heap_end : ℕ
heap_end = 0xffc00000

-- `MM_Init`, with the kernel's size in pages and its end; an entry takes 24 bytes. `MM_AllocInit`
-- stores to the first page of the heap, which is not mapped yet, so the handler runs. The text screen
-- moves to the physical memory map area at the end, as `TextModeVideo_PostMMInit` has it.
pub init : (entry_at : ℕ → Region) → BootInfo → (kernel_size kernel_end : ℕ) → Mm Sizes
unfolding regions count_pages fill is_reserved
init entry_at info kernel_size kernel_end s =
    let rs = regions entry_at (info.map_length / 24) info.map_addr in
    if bit_and info.flags (2 ^ 6) == 0 then halt s else elim (count_pages 0 rs) [
      | none ↦ halt s
      | some n ↦
          let stack_pages = u32 (u32 (n * 4) + (page_size - 1)) / 2 ^ 12 in
          let fps_end = u32 (0x300000 + u32 (stack_pages * 2 ^ 12)) in
          (do
            map 0x300000 kernel_end stack_pages false true
            fill (is_reserved kernel_size fps_end) rs
            page_fault heap_start heap_end heap_start
            unmap 0 entries_per_page
            set_pte window 0
            emit reload_cr3
            map 0xb8000 0xc0000000 8 false true
            pure (record {
              size_pages = n;
              size_kb = u32 (n * 4);
              kernel_end = u32 (kernel_end + u32 (stack_pages * 2 ^ 12));
            }))
            s
    ]
