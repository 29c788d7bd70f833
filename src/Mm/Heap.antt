-- ===== src/Mm/Heap.antt =====
-- src/mm_allocator.c: the kernel's heap. Memory is a function from the byte address of a word to the
-- word; a header has its size at its address and its link 4 bytes on, and both chains go through
-- memory. An address of 0 is the null pointer.
pub mod Fresh
pub mod Chain
pub mod Split
pub mod Half
pub mod Carve
pub mod FirstFit
pub mod Spaced
pub mod RoundTrip
pub mod Stale
pub mod Release
pub mod Insert
use valeo.Base.{
  ℕ, zero, suc, ◌+◌, ◌-◌, ◌*◌, ◌/◌, ◌%◌, ◌^◌, Bool, true, false, ◌==◌, ltb, leb, not, ◌&&◌, ◌||◌,
  if◌then◌else◌,
}
use valeo.Base.Run.{Run, Cmd, ok, halted, looping, pure, halt, get, modify, ◌>>=◌, ◌>>◌, update}

abbrev pub u32 : ℕ → ℕ
u32 n = n % 2 ^ 32

-- `sizeof` both kinds of header
abbrev pub header : ℕ
header = 8

-- `sMMAllocator_t` and the memory that it lies over.
pub record Heap : Type 0 where
  pub mem : ℕ → ℕ
  pub heap : ℕ
  pub pages : ℕ
  pub alloc_head : ℕ
  pub free_head : ℕ

-- `m_nSize` and `m_psNext` of the header at an address
abbrev pub size_at : Heap → ℕ → ℕ
size_at s a = s.mem a

abbrev pub next_at : Heap → ℕ → ℕ
next_at s a = s.mem (u32 (a + 4))

abbrev pub set_size : (a v : ℕ) → Heap → Heap
set_size a v s = record s { mem = update s.mem a v }

abbrev pub set_next : (a v : ℕ) → Heap → Heap
set_next a v s = record s { mem = update s.mem (u32 (a + 4)) v }

-- `MM_AllocInit`
unfoldable pub init : (address pages : ℕ) → Heap → Heap
init address pages s =
    let first = u32 (address + header) in
    let s = record s { heap = address; pages = pages; alloc_head = address } in
    let s = set_next address 0 (set_size address 0 s) in
    let s = record s { free_head = first } in
    set_next first 0 (set_size first (u32 (u32 (pages * 2 ^ 12) + 2 ^ 32 - header - header)) s)

-- `nSizeNeeded`
unfoldable pub needed_for : ℕ → ℕ
needed_for size = u32 (u32 (size + header + 3) / 2 ^ 2 * 2 ^ 2)

-- The first fit, with the entry before it; at the end of the chain the machine halts.
unfoldable pub find_free : (fuel needed entry previous : ℕ) → Cmd Heap (ℕ × ℕ)
find_free zero needed entry previous s = looping
find_free (suc fuel) needed entry previous s =
    let rest = find_free fuel needed (next_at s entry) entry s in
    if entry == 0
    then halted s
    else if leb needed (size_at s entry)
    then ok (entry, previous) s
    else rest

-- An entry that fits becomes an allocation, and the free region moves behind it.
unfoldable pub split : (needed entry previous : ℕ) → Heap → Heap
split needed entry previous s =
    let new = u32 (entry + needed) in
    let s = set_size new (u32 (size_at s entry + 2 ^ 32 - needed)) s in
    let s =
      if s.free_head == entry then record s { free_head = new } else set_next previous new s in
    let s = set_next new (next_at s entry) s in
    let s = set_size entry needed s in
    let s = set_next entry s.alloc_head s in record s { alloc_head = entry }

-- `MM_Alloc`
unfoldable pub alloc : (fuel size : ℕ) → Cmd Heap ℕ
unfolding find_free split needed_for
alloc fuel size s =
    (do
      (entry, previous) ← find_free fuel (needed_for size) s.free_head 0
      modify (split (needed_for size) entry previous)
      pure (u32 (entry + header)))
      s

-- The search for an allocation, with the one before it. It stops at the last one.
pub find_alloc : (fuel target entry previous : ℕ) → Cmd Heap (ℕ × ℕ)
find_alloc zero target entry previous s = looping
find_alloc (suc fuel) target entry previous s =
    let rest = find_alloc fuel target (next_at s entry) entry s in
    if entry == target || next_at s entry == 0 then ok (entry, previous) s else rest

-- The place of a new free region: the chain runs from high addresses to low ones.
pub find_place : (fuel new entry previous : ℕ) → Cmd Heap (ℕ × ℕ)
find_place zero new entry previous s = looping
find_place (suc fuel) new entry previous s =
    let rest = find_place fuel new (next_at s entry) entry s in
    if ltb new entry then rest else ok (entry, previous) s

-- The loop of `MM_Coalesce`.
pub merge : (fuel entry next previous : ℕ) → Cmd Heap (Unit {0})
merge zero entry next previous s = looping
merge (suc fuel) entry next previous s =
    let a = set_size next (u32 (size_at s next + size_at s entry)) s in
    let b = if entry == a.free_head then record a { free_head = next } else a in
    let c = if previous == 0 then b else set_next previous next b in
    let joined = merge fuel next (next_at c next) previous c in
    let moved = merge fuel (next_at s entry) (next_at s (next_at s entry)) entry s in
    if next == 0 then ok tt s else if entry == u32 (next + size_at s next) then joined else moved

-- `MM_Coalesce`
pub coalesce : (fuel entry : ℕ) → Cmd Heap (Unit {0})
unfolding merge
coalesce fuel entry s =
    let first = if entry == 0 then s.free_head else entry in merge fuel first (next_at s first) 0 s

-- The region at `entry` leaves the chain of allocations.
pub unlink : (entry previous : ℕ) → Heap → Heap
unlink entry previous s =
    if previous == 0
    then record s { alloc_head = next_at s entry }
    else set_next previous (next_at s entry) s

-- The region at `new` joins the chain of free regions, behind `previous`. Where there is none the code
-- follows the null pointer, and the page fault at that address, outside of the heap, halts.
pub link : (new entry previous : ℕ) → Cmd Heap (Unit {0})
link new entry previous s =
    if previous == 0
    then (if entry == 0 then halted (set_next new 0 s) else halted s)
    else if entry == 0
    then ok tt (set_next previous new (set_next new 0 s))
    else ok tt (set_next previous new (set_next new (next_at s previous) s))

-- `MM_Free`
pub free : (fuel allocation : ℕ) → Cmd Heap (Unit {0})
unfolding find_alloc find_place coalesce unlink link
free fuel allocation s =
    (do
      (entry, previous) ← find_alloc fuel (u32 (allocation + 2 ^ 32 - header)) s.alloc_head 0
      s ← get
      if next_at s entry == 0 then halt else pure tt
      modify (unlink entry previous)
      s ← get
      (place, before) ← find_place fuel entry s.free_head 0
      link entry place before
      coalesce fuel before)
      s

-- `memcpy` of a number of bytes that is a multiple of 4.
abbrev pub copy : (to from count : ℕ) → Heap → Heap
copy to from count s = record s {
  mem = λ j. if leb to j && ltb j (to + count) then s.mem (from + (j - to)) else s.mem j;
}

-- `MM_Expand`
pub expand : (fuel allocation additional : ℕ) → Cmd Heap ℕ
unfolding find_alloc alloc free
expand fuel allocation additional s =
    (do
      (entry, previous) ← find_alloc fuel (u32 (allocation + 2 ^ 32 - header)) s.alloc_head 0
      s ← get
      if next_at s entry == 0 then halt else pure tt
      new ← alloc fuel (u32 (size_at s entry + additional))
      modify (λ s. copy new (u32 (entry + header)) (size_at s entry) s)
      free fuel allocation
      pure new)
      s
