-- ===== src/Mm/Heap/Fresh.antt =====
-- An allocation from the fresh heap of src/mm_allocator.c.
use valeo.Base.{
  ℕ, suc, [], ◌∷◌, ◌+◌, ◌-◌, ◌*◌, ◌/◌, ◌^◌, ◌≤◌, ◌<◌, ◌≡◌, refl, arith, true, false, ◌==◌, leb,
}
use valeo.Base.Run.{Run, ok}
use valeo.Mm.Heap.Chain.{Has}
use valeo.Mm.Heap.{
  Heap, u32, size_at, next_at, init, needed_for, find_free, split, alloc, free, find_alloc,
  find_place, merge, coalesce, unlink, link, expand,
}

abbrev blank : Heap
blank = record { mem = λ _. 0; heap = 0; pages = 0; alloc_head = 0; free_head = 0 }

state_of : {A : Type 0} → Run Heap A → Heap
state_of (ok a s) = s
state_of _ = blank

value_of : Run Heap ℕ → ℕ
value_of (ok a s) = a
value_of _ = 0

abbrev fresh : Heap
fresh = init 0xf4000000 16 blank

-- Two allocations lie one behind the other.
two_run : value_of (alloc 2 100 (state_of (alloc 2 10 fresh))) ≡ 0xf4000024
unfolding value_of state_of init alloc find_free split needed_for
two_run = refl

-- A block of `n` bytes has been cut off the front of the free region at `a`.
pub record Carved (a n : ℕ) (s t : Heap) : Type 0 where
  pub taken : size_at t a ≡ n
  pub linked : next_at t a ≡ s.alloc_head
  pub head : t.alloc_head ≡ a
  pub first : t.free_head ≡ a + n
  pub left : size_at t (a + n) ≡ size_at s a - n
  pub chain : next_at t (a + n) ≡ next_at s a

pub needed_for-eq : (size : ℕ) → size + 11 < 2 ^ 32 → needed_for size ≡ (size + 11) / 4 * 4
unfolding needed_for
needed_for-eq size small = omega arith

split-Carved :
    (n : ℕ) (s : Heap)
    → 8 ≤ n
    → s.free_head + n + 8 ≤ 2 ^ 32
    → n ≤ size_at s s.free_head
    → size_at s s.free_head < 2 ^ 32
    → Carved s.free_head n s (split n s.free_head 0 s)
unfolding split
split-Carved n s least room fits small = record {
  taken = ground arith;
  linked = ground arith;
  head = ground arith;
  first = ground arith;
  left = ground arith;
  chain = ground arith;
}

-- `MM_Alloc` of fewer than 2 ^ 32 - 11 bytes, when the first free region is big enough and lies in the
-- 32-bit address space with 8 bytes to spare behind the block, returns the address 8 bytes into that
-- region. The block, of the size and its header rounded up to a multiple of 4, is cut off the front of
-- the region, and is the first of the chain of allocations.
pub alloc-Carved :
    (fuel size : ℕ) (s : Heap)
    → size + 11 < 2 ^ 32
    → 0 < s.free_head
    → s.free_head + (size + 11) / 4 * 4 + 8 ≤ 2 ^ 32
    → (size + 11) / 4 * 4 ≤ size_at s s.free_head
    → size_at s s.free_head < 2 ^ 32
    → (t : Heap) × (alloc (suc fuel) size s ≡ ok (s.free_head + 8) t)
      × Carved s.free_head ((size + 11) / 4 * 4) s t
unfolding alloc find_free
alloc-Carved fuel size s bound there room fits small =
    let n = (size + 11) / 4 * 4 in
    let not_null : (s.free_head == 0) ≡ false = ground arith in
    let enough : leb n (size_at s s.free_head) ≡ true = ground arith in
    let place : u32 (s.free_head + 8) ≡ s.free_head + 8 = omega arith in
    (
      split n s.free_head 0 s,
      rw (needed_for-eq size bound, not_null, enough, place) refl,
      split-Carved n s (omega arith) room fits small,
    )

-- Freeing the only block gives the fresh heap's free region back.
free_run :
    (state_of (free 3 (value_of (alloc 2 10 fresh)) (state_of (alloc 2 10 fresh)))).free_head
    ≡ fresh.free_head
unfolding value_of state_of init alloc find_free split needed_for free find_alloc find_place merge
    coalesce unlink link
free_run = refl

-- More bytes for a block: it moves behind itself.
expand_run :
    value_of (expand 5 (value_of (alloc 2 10 fresh)) 6 (state_of (alloc 2 10 fresh))) ≡ 0xf4000024
unfolding value_of state_of init alloc find_free split needed_for free find_alloc find_place merge
    coalesce unlink link expand
expand_run = refl

-- `MM_AllocInit` over at least one page makes a heap with one free region, behind an empty first block.
pub init-Has :
    (address pages : ℕ) (s : Heap)
    → 0 < address
    → 0 < pages
    → address + pages * 2 ^ 12 ≤ 2 ^ 32
    → Has (init address pages s) ((address + 8, pages * 2 ^ 12 - 16) ∷ []) ((address, 0) ∷ [])
unfolding init
init-Has address pages s there some_page inside = record {
  free_chain = (omega arith, (omega arith, omega arith), ground arith, ground arith);
  block_chain = (refl, (omega arith, omega arith), ground arith, ground arith);
  separate = ((ground arith, tt), (tt, tt));
}
