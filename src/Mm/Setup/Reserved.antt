-- ===== src/Mm/Setup/Reserved.antt =====
-- The memory map and the reserved pages of `MM_Init` of src/mm.c, described without its loops.
use valeo.Base.{
  ℕ, ◌+◌, ◌*◌, ◌^◌, ◌<◌, ◌≡◌, refl, ap, ap₂, ◌∙◌, sym, arith, Bool, false, List, [], ◌∷◌, length,
  ltb, leb, ◌&&◌, ◌||◌,
}
use mathlib.Core.Path.{fun_ext}
use valeo.Mm.Page.{u32, page_size}
use valeo.Mm.Setup.{Region, regions, is_reserved}

-- The entries from address `addr` on: behind the word with its size, an entry has so many bytes, and the
-- next one follows.
unfoldable pub MemoryMap : (entry_at : ℕ → Region) (addr : ℕ) → List Region → Type 0
MemoryMap entry_at addr [] = Unit {0}
MemoryMap entry_at addr (r ∷ rest) =
    (r ≡ entry_at addr) × MemoryMap entry_at (u32 (addr + 4 + r.size)) rest

pub regions-MemoryMap :
    (entry_at : ℕ → Region) (addr : ℕ) (rs : List Region)
    → MemoryMap entry_at addr rs
    → regions entry_at (length rs) addr ≡ rs
unfolding regions MemoryMap
regions-MemoryMap entry_at addr [] h = refl
regions-MemoryMap entry_at addr (r ∷ rest) (here, next) =
    let after : u32 (addr + u32 ((entry_at addr).size + 4)) ≡ u32 (addr + 4 + r.size) =
      omega (arith, ap Region.size here) in
    ap₂ ◌∷◌ (sym here) (
      ap (regions entry_at (length rest)) after
      ∙ regions-MemoryMap entry_at (u32 (addr + 4 + r.size)) rest next)

-- A list of ranges, each by its first address and its pages.
unfoldable pub taken : List (ℕ × ℕ) → ℕ → Bool
taken [] addr = false
taken ((first, pages) ∷ rest) addr =
    leb first addr && ltb addr (first + pages * page_size) || taken rest addr

-- What is in use: the kernel, the 18 pages with its directory, its table and its stack, and `stack` pages of
-- the free page stack.
abbrev pub in_use : (kernel_size stack : ℕ) → List (ℕ × ℕ)
in_use kernel_size stack = (0x100000, kernel_size) ∷ (0x200000, 18) ∷ (0x300000, stack) ∷ []

pub is_reserved-taken :
    (kernel_size stack : ℕ)
    → 0x100000 + kernel_size * page_size < 2 ^ 32
    → is_reserved kernel_size (0x300000 + stack * page_size) ≡ taken (in_use kernel_size stack)
unfolding is_reserved taken
is_reserved-taken kernel_size stack small = fun_ext λ addr.
    let last : u32 (0x100000 + u32 (kernel_size * 2 ^ 12)) ≡ 0x100000 + kernel_size * 4096 =
      omega arith in
    rw last (ground arith)
