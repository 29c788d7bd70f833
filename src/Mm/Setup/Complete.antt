-- ===== src/Mm/Setup/Complete.antt =====
-- `MM_Init` of src/mm.c comes to its end.
use valeo.Base.{
  ℕ, ◌+◌, ◌*◌, ◌/◌, ◌%◌, ◌^◌, ◌≤◌, ◌<◌, ◌≡◌, true, false, bit_and, List, ◌∷◌, Bool, length,
}
use mathlib.Core.List.{reverse}
use valeo.Base.Run.{pure, ◌>>◌}
use valeo.Mm.Page.{
  Paging, Mm, window, pd, set_pte, page_size, reload_cr3, emit, entries_per_page, map, unmap,
}
use valeo.Mm.Page.Tables.{IsPresent}
use valeo.Exception.{page_fault}
use valeo.Mm.Page.Inside.{Inside}
use valeo.Mm.Setup.{heap_start, heap_end, Region, BootInfo, Sizes, regions, fill}
use valeo.Mm.Setup.Stacked.{usable, total, AllAligned}
use valeo.Mm.Setup.Reserved.{MemoryMap, taken, in_use}
use valeo.Mm.Setup.Steps.{stack_pages, kernel_page, with_heap, with_screen, Steps}

-- The memory that the entries give, and the tables that src/boot.S makes, with the kernel's for the 4 MB
-- around its end.
pub record Ready (rs : List Region) (kernel_size kernel_end a b c : ℕ) (left : List ℕ) (s : Paging)
    : Type 0 where
  pub aligned : AllAligned rs
  pub few : total rs ≤ 2 ^ 20
  pub kernel_fits : 0x100000 + kernel_size * page_size < 2 ^ 32
  pub free :
      reverse (usable (taken (in_use kernel_size (stack_pages (total rs)))) rs) ≡ a ∷ b ∷ c ∷ left
  pub zero_table : IsPresent (pd s 0)
  pub kernel_table : IsPresent (pd s (kernel_end / 2 ^ 22))
  pub no_screen_table : pd s 768 % 2 ≡ 0
  pub no_heap_table : pd s 976 % 2 ≡ 0
  pub high : 2 ^ 22 ≤ kernel_end
  pub inside : kernel_end / page_size + stack_pages (total rs) ≤ window
  pub before : kernel_end / page_size < window
  pub one_table : kernel_end / page_size % 1024 + stack_pages (total rs) ≤ 1024

-- What the boot loader passes: that it has a memory map, and its entries.
pub record Booted (entry_at : ℕ → Region) (info : BootInfo) (rs : List Region)
    (kernel_size kernel_end a b c : ℕ) (left : List ℕ) (s : Paging) : Type 0 where
  pub has_map : bit_and info.flags 64 ≡ 64
  pub memory_map : MemoryMap entry_at info.map_addr rs
  pub entries : length rs ≡ info.map_length / 24
  pub ready : Ready rs kernel_size kernel_end a b c left s

-- The parts of `MM_Init` behind the count of the pages
abbrev show_screen : Sizes → Mm Sizes
show_screen z = do set_pte window 0; emit reload_cr3; map 0xb8000 0xc0000000 8 false true; pure z

abbrev drop_identity : Sizes → Mm Sizes
drop_identity z = do unmap 0 entries_per_page; show_screen z

abbrev touch_heap : Sizes → Mm Sizes
touch_heap z = do page_fault heap_start heap_end heap_start; drop_identity z

abbrev Shown : Sizes → Paging → Sizes → Paging → Type 0
Shown z s z' t = (z' ≡ z) × Inside kernel_page 786432 8 0xb8000 (with_screen s) t

abbrev Dropped : Sizes → Paging → Sizes → Paging → Type 0
Dropped z s z' t = (s3 : Paging) × Inside (λ _. 0) 0 1024 0 s s3 × Shown z s3 z' t

abbrev Touched : Sizes → Paging → Sizes → Paging → Type 0
Touched z s z' t = Dropped z (with_heap s) z' t

abbrev Done :
    (n kernel_end a b c : ℕ) (left : List ℕ) (z : Sizes) (s : Paging) → Sizes → Paging → Type 0
Done n kernel_end a b c left z s z' t =
    (s1 : Paging) × (s2 : Paging) × (s3 : Paging) × (z' ≡ z)
    × Steps n kernel_end a b c left s s1 s2 s3 t

module _ (reserved : ℕ → Bool) (rs : List Region) (kernel_end a b c : ℕ) (left : List ℕ) (z : Sizes)
    (s : Paging) where
  abbrev lay_out : Mm Sizes
  lay_out = do
    map 0x300000 kernel_end (stack_pages (total rs)) false true
    fill reserved rs
    touch_heap z

module _ (entry_at : ℕ → Region) (info : BootInfo) (kernel_size kernel_end a b c : ℕ)
    (left : List ℕ) (s : Paging) where
  abbrev rs : List Region
  rs = regions entry_at (info.map_length / 24) info.map_addr
