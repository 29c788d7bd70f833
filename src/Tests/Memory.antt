-- ===== src/Tests/Memory.antt =====
-- src/mm_page.c and src/arch/x86/exception.c at concrete states.
use valeo.Base.{
  ℕ, ◌+◌, ◌*◌, ◌/◌, ◌%◌, ◌<◌, ap, ◌≡◌, refl, arith, true, false, [], ◌==◌, if◌then◌else◌, bit_or,
  ◌≤◌,
}
use valeo.Base.Run.{ok, halted, Returns}
use valeo.Mm.Page.{Paging, pd, page_size, map, map_zero_fill, free, flags, present, zero_fill}
use valeo.Mm.Page.Walk.{Stored, IsFlushed}
use valeo.Mm.Page.Map.{map-stores, map_zero_fill-stores, Finds, map-get_pt_value}
use valeo.Mm.Page.Free.{free-halts}
use valeo.Mm.Page.Allocate.{allocated}
use valeo.Exception.{page_fault}
use valeo.Exception.Fault.{page_fault_lem, map_zero_fill-page_fault}

-- The directory in its own last entry, the kernel's table at 3 GB, one page present in it, and ten free
-- pages.
abbrev booted : Paging
booted = record {
  pt_map = λ i.
      if i == 1048575
      then 0x8003
      else if i == 1048320
      then 0x1003
      else if i == 786433
      then 0x5003
      else 0;
  fps = λ i. 0x100000 + i * page_size;
  fps_index = 9;
  effects = [];
}

-- A heap area above the kernel.
abbrev heap_at : ℕ
heap_at = 0xc0800000

abbrev heap_to : ℕ
heap_to = 0xc0900000

-- 1,500 pages over the ends of two page tables.
map-stores_example :
    Returns
      (λ _ t.
        Stored (λ p. bit_or p (flags present true true)) 1014 1500 0x200000 3 booted t
        × IsFlushed t)
      (map 0x200000 0x3f6000 1500 true true booted)
map-stores_example =
    map-stores 0x3f6000 1500 booted (omega arith, omega arith) (omega arith, omega arith) 0x200000
      true true (omega arith)

map_zero_fill-stores_example :
    Returns
      (λ _ t. Stored (λ _. flags zero_fill false true) 1014 1500 0 3 booted t × IsFlushed t)
      (map_zero_fill 0x3f6000 1500 false true booted)
map_zero_fill-stores_example =
    map_zero_fill-stores 0x3f6000 1500 booted (omega arith, omega arith) (omega arith, omega arith)
      false true

map-get_pt_value_example :
    Returns
      (λ _ t. Finds 0x3f6000 0x200000 1400 true false t)
      (map 0x200000 0x3f6000 1500 true false booted)
map-get_pt_value_example =
    map-get_pt_value 0x200000 0x3f6000 1500 1400 true false booted (omega arith) refl
      (omega arith, omega arith) (omega arith, omega arith) (omega arith)

-- Pages 0 to 3 of the kernel, of which page 1 is present.
free-halts_example : free 0xc0000000 4 booted ≡ halted booted
free-halts_example =
    free-halts 0xc0000000 4 booted (omega arith, omega arith) there refl 786433 (omega arith)
      (omega arith) refl
  where
    there : (j : ℕ) → 786432 ≤ j → j < 786436 → pd booted (j / 1024) % 2 ≡ 1
    there j lo hi = let e : j / 1024 ≡ 768 = omega arith in ap (λ i. pd booted i % 2) e

    absent : (j : ℕ) → 786434 ≤ j → j < 786436 → booted.pt_map j % 2 ≡ 0
    absent j lo hi = ground arith

page_fault_lem_example : page_fault heap_at heap_to 0xc0004123 booted ≡ halted booted
page_fault_lem_example =
    page_fault_lem heap_at heap_to 0xc0004123 booted (omega arith) refl (omega arith) (omega arith)

map_zero_fill-page_fault_example :
    Returns
      (λ _ t. page_fault heap_at heap_to 0x405123 t ≡ ok tt (allocated 0x405000 true t))
      (map_zero_fill 0x3f6000 100 true true booted)
map_zero_fill-page_fault_example =
    map_zero_fill-page_fault heap_at heap_to 0x3f6000 100 15 0x405123 true true booted
      (omega arith, omega arith) (omega arith) (omega arith) (omega arith) (omega arith) refl
