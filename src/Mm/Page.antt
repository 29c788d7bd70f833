-- ===== src/Mm/Page.antt =====
-- src/mm_page.c: the page tables, as the arrays through which the kernel reaches them, and the stack
-- of free physical pages. The constants are those of include/mm.h.
pub mod Stack
pub mod Tables
pub mod Inside
pub mod Walk
pub mod Map
pub mod Free
pub mod Allocate
use valeo.Base.{
  ℕ, zero, suc, ◌+◌, ◌-◌, ◌*◌, ◌/◌, ◌%◌, ◌^◌, Bool, true, false, List, ◌∷◌, bit_and, bit_or,
  bit_xor, ◌==◌, ltb, leb, not, ◌&&◌, if◌then◌else◌,
}
use valeo.Base.Run.{Run, Cmd, ok, halted, pure, halt, get, modify, ◌>>=◌, ◌>>◌, update}

abbrev pub page_size : ℕ
page_size = 4096

abbrev pub entries_per_page : ℕ
entries_per_page = 1024

abbrev pub offset_mask : ℕ
offset_mask = 0x00000fff

abbrev pub page_mask : ℕ
page_mask = 0xfffff000

abbrev pub present : ℕ
present = 1

abbrev pub rw_flag : ℕ
rw_flag = 2

abbrev pub user : ℕ
user = 4

abbrev pub zero_fill : ℕ
zero_fill = 512

-- The index of an empty free page stack, -1 in 32 bits.
abbrev pub empty_index : ℕ
empty_index = 0xffffffff

abbrev pub u32 : ℕ → ℕ
u32 n = n % 2 ^ 32

-- What a routine does to the processor and to mapped memory besides writing the tables.
pub data Effect : Type 0 where
  invalidate_page : ℕ → Effect
  reload_cr3 : Effect
  clear_memory : (address bytes : ℕ) → Effect

-- Where in the page table map the directory lies: src/boot.S puts it into its own last entry, so
-- `m_pnKernel_PD[ d ]` is `m_pnKernel_PTMap[ 1023 * 1024 + d ]`, and a write to one is a write to the
-- other.
abbrev pub window : ℕ
window = 1047552

-- The part of `g_sKernel` that the file works on, and the effects so far, the last one first.
pub record Paging : Type 0 where
  pub pt_map : ℕ → ℕ
  pub fps : ℕ → ℕ
  pub fps_index : ℕ
  pub effects : List Effect

-- `m_pnKernel_PD`
abbrev pub pd : Paging → ℕ → ℕ
pd s d = s.pt_map (window + d)

abbrev pub Mm : Type 0 → Type 0
Mm A = Cmd Paging A

abbrev pub emit : Effect → Mm (Unit {0})
emit e = modify (λ s. record s { effects = e ∷ s.effects })

abbrev pub set_pte : ℕ → ℕ → Mm (Unit {0})
set_pte i v = modify (λ s. record s { pt_map = update s.pt_map i v })

-- `memset` over the entries `[from, from + count)` of the page table map.
abbrev pub cleared : (ℕ → ℕ) → ℕ → ℕ → ℕ → ℕ
cleared f from count j = if leb from j && ltb j (from + count) then 0 else f j

-- `MM_Page_GetFree`. The index wraps below 0 to the mark of an empty stack.
pub get_free : Mm ℕ
get_free s =
    if s.fps_index == empty_index
    then halted s
    else ok (s.fps s.fps_index) (record s { fps_index = u32 (s.fps_index + 2 ^ 32 - 1) })

-- `MM_Page_AddFree`.
pub add_free : ℕ → Mm (Unit {0})
add_free p s =
    let i = u32 (s.fps_index + 1) in ok tt (record s { fps_index = i; fps = update s.fps i p })

-- The branch of `MM_GetPTAddress` that makes a new page table for directory entry `pde`.
pub new_table : (logical pde : ℕ) → Mm (Unit {0})
unfolding get_free
new_table logical pde = do
  real ← get_free
  set_pte (window + pde) (bit_or (bit_or real present) rw_flag)
  modify (λ s. record s { pt_map = cleared s.pt_map (pde * 2 ^ 10) (page_size / 4) })
  emit (invalidate_page logical)

-- `MM_GetPTAddress`: the first logical address that the page table of `logical` covers.
pub get_pt_address : ℕ → Mm ℕ
unfolding new_table
get_pt_address logical s =
    let pde = logical / 2 ^ 22 in
    if bit_and (pd s pde) present == 0
    then (do new_table logical pde; pure (pde * 2 ^ 22)) s
    else ok (pde * 2 ^ 22) s

-- `MM_GetPTValue`.
pub get_pt_value : ℕ → Mm ℕ
unfolding get_pt_address
get_pt_value logical = do
  pt ← get_pt_address logical
  s ← get
  pure (s.pt_map (pt / 2 ^ 12 + u32 (logical + 2 ^ 32 - pt) / 2 ^ 12))

-- The loop that `MM_Page_Map`, `MM_Page_MapZeroFill`, `MM_Page_Unmap` and `MM_Page_Free` share: for
-- each page it moves to a new page table at the end of one, and runs `body` at the entry's index.
pub cursor : (pt offset logical : ℕ) → Mm (ℕ × ℕ)
unfolding get_pt_address
cursor pt offset logical =
    if offset == entries_per_page
    then (do t ← get_pt_address logical; pure (t / 2 ^ 12, 0))
    else pure (pt, offset)

pub walk :
    (body : (index physical : ℕ) → Mm (Unit {0}))
    → (count pt offset logical physical : ℕ) → Mm (Unit {0})
unfolding cursor
walk body zero pt offset logical physical = pure tt
walk body (suc count) pt offset logical physical = do
  (pt', offset') ← cursor pt offset logical
  body (pt' + offset') physical
  walk body count pt' (offset' + 1) (u32 (logical + page_size)) (u32 (physical + page_size))

-- Page table address and offset, the loop, and the reload of CR3.
pub over_pages :
    (body : (index physical : ℕ) → Mm (Unit {0})) → (physical logical count : ℕ) → Mm (Unit {0})
unfolding walk get_pt_address
over_pages body physical logical count = do
  pt ← get_pt_address logical
  walk body count (pt / 2 ^ 12) (u32 (logical + 2 ^ 32 - pt) / 2 ^ 12) logical physical
  emit reload_cr3

-- The flags of an entry from a first flag and the two arguments.
abbrev pub flags : ℕ → (is_user is_rw : Bool) → ℕ
flags f is_user is_rw =
    let f' = if is_user then bit_or f user else f in if is_rw then bit_or f' rw_flag else f'

-- `MM_Page_Map`.
pub map : (physical logical count : ℕ) (is_user is_rw : Bool) → Mm (Unit {0})
unfolding over_pages
map physical logical count is_user is_rw =
    over_pages (λ i p. set_pte i (bit_or p (flags present is_user is_rw))) physical logical count

-- `MM_Page_MapZeroFill`.
pub map_zero_fill : (logical count : ℕ) (is_user is_rw : Bool) → Mm (Unit {0})
unfolding over_pages
map_zero_fill logical count is_user is_rw =
    over_pages (λ i _. set_pte i (flags zero_fill is_user is_rw)) 0 logical count

-- `MM_Page_Unmap`.
pub unmap : (logical count : ℕ) → Mm (Unit {0})
unfolding over_pages
unmap logical count = over_pages (λ i _. set_pte i 0) 0 logical count

-- `MM_Page_Allocate`.
pub allocate : (logical : ℕ) (is_zero_fill : Bool) → Mm (Unit {0})
unfolding get_pt_address get_free
allocate logical is_zero_fill = do
  pt ← get_pt_address logical
  p ← get_free
  set_pte (pt / 2 ^ 12 + u32 (logical + 2 ^ 32 - pt) / 2 ^ 12) (bit_or (bit_or p present) rw_flag)
  if is_zero_fill then emit (clear_memory logical page_size) else pure tt
  emit (invalidate_page logical)

-- The body of the loop of `MM_Page_Free`.
pub free_entry : ℕ → Mm (Unit {0})
unfolding add_free
free_entry i s =
    if bit_and (s.pt_map i) present == 0
    then ok tt s
    else if ltb 0 (bit_and (s.pt_map i) offset_mask)
    then halted s
    else (do
      add_free (bit_and (s.pt_map i) page_mask)
      s' ← get
      set_pte i (bit_xor (s'.pt_map i) present))
        s

-- `MM_Page_Free`.
pub free : (logical count : ℕ) → Mm (Unit {0})
unfolding over_pages free_entry
free logical count = over_pages (λ i _. free_entry i) 0 logical count
