-- ===== src/Exception/Fault.antt =====
-- Demand paging: what a page fault does to each kind of page.
use valeo.Base.{
  ℕ, ◌+◌, ◌-◌, ◌*◌, ◌/◌, ◌^◌, ◌≤◌, ◌<◌, ◌≡◌, refl, ap, ◌∙◌, Bool, true, false, arith, bit_and,
  if◌then◌else◌, ◌==◌, ltb, leb, ◌&&◌, ◌||◌,
}
use valeo.Base.Bits.{and-mask, and-shifted}
use valeo.Base.Run.{ok, halted, Returns, Returns-mono}
use valeo.Mm.Page.{
  Paging, pd, page_size, page_mask, get_pt_address, zero_fill, flags, map_zero_fill,
}
use valeo.Mm.Page.Tables.{IsPresent, available}
use valeo.Mm.Page.Map.{BelowTables, map_zero_fill-stores}
use valeo.Mm.Page.Free.{get_pt_address-there}
use valeo.Mm.Page.Allocate.{allocated, allocate-allocated}
use valeo.Exception.{page_fault, resolve}

-- The page of an address.
abbrev pub page_of : ℕ → ℕ
page_of a = a / page_size * page_size

pub page_mask-page_of : (a : ℕ) → a < 2 ^ 32 → bit_and a page_mask ≡ page_of a
page_mask-page_of a h =
    and-shifted 12 a (2 ^ 20 - 1) ∙ ap (λ q. q * 2 ^ 12) (and-mask 20 (a / 2 ^ 12)) ∙ omega arith

module _ (heap_start heap_end cr2 : ℕ) (s : Paging) (small : cr2 < 2 ^ 32)
    (there : IsPresent (pd s (cr2 / 2 ^ 22))) where
  page_fault-resolves :
      page_fault heap_start heap_end cr2 s
      ≡ resolve heap_start heap_end (page_of cr2) (s.pt_map (cr2 / page_size)) s
  unfolding page_fault
  page_fault-resolves =
      let d : page_of cr2 / 2 ^ 22 ≡ cr2 / 2 ^ 22 = omega arith in
      rw (page_mask-page_of cr2 small, get_pt_address-there (page_of cr2) s (rw d there))
        (ap (λ i. resolve heap_start heap_end (page_of cr2) (s.pt_map i) s) (omega arith))

  page_there : IsPresent (pd s (page_of cr2 / 2 ^ 22))
  page_there = let d : page_of cr2 / 2 ^ 22 ≡ cr2 / 2 ^ 22 = omega arith in rw d there

  -- With the page table of the address there and a page on the stack: if the entry is marked for
  -- zero fill or the address is in the heap area, the fault returns with the top page of the stack
  -- mapped there, cleared; any other fault halts the machine.
  pub page_fault_lem :
      s.fps_index < 2 ^ 32
      → 1 ≤ available s
      → page_fault heap_start heap_end cr2 s ≡ (
          if bit_and (s.pt_map (cr2 / page_size)) zero_fill == 0
            && (ltb (page_of cr2) heap_start || leb heap_end (page_of cr2))
          then halted s
          else ok tt (allocated (page_of cr2) true s))
  page_fault_lem index_small enough =
      page_fault-resolves
      ∙ unfold resolve in
        ground (
          arith,
          allocate-allocated (page_of cr2) s (omega arith) page_there true index_small enough,
        )

-- A fault on a page without a table makes the table first.
pub page_fault-made :
    (heap_start heap_end cr2 : ℕ) (s u : Paging)
    → cr2 < 2 ^ 32
    → get_pt_address (page_of cr2) s ≡ ok (page_of cr2 / 2 ^ 22 * 2 ^ 22) u
    → IsPresent (pd u (page_of cr2 / 2 ^ 22))
    → page_fault heap_start heap_end cr2 s ≡ page_fault heap_start heap_end cr2 u
unfolding page_fault
page_fault-made heap_start heap_end cr2 s u small made there =
    rw (page_mask-page_of cr2 small, made, get_pt_address-there (page_of cr2) u there) refl

zero_fill_marked :
    (is_user is_rw : Bool) → (bit_and (flags zero_fill is_user is_rw) zero_fill == 0) ≡ false
zero_fill_marked false false = refl
zero_fill_marked false true = refl
zero_fill_marked true false = refl
zero_fill_marked true true = refl

-- After `MM_Page_MapZeroFill` of a range below the page table map, with pages for its page
-- tables and one more on the stack, a fault at any address of the range returns with a cleared page
-- of the stack mapped there, inside or outside of the heap area.
pub map_zero_fill-page_fault :
    (heap_start heap_end logical count i cr2 : ℕ) (is_user is_rw : Bool) (s : Paging)
    → BelowTables logical count
    → s.fps_index < 2 ^ 32
    → count / 1024 + 3 ≤ available s
    → i < count
    → cr2 < 2 ^ 32
    → cr2 / page_size ≡ logical / page_size + i
    → Returns
        (λ _ t. page_fault heap_start heap_end cr2 t ≡ ok tt (allocated (page_of cr2) true t))
        (map_zero_fill logical count is_user is_rw s)
map_zero_fill-page_fault heap_start heap_end logical count i cr2 is_user is_rw s space small enough
      lt cb at =
    Returns-mono _ _ (map_zero_fill logical count is_user is_rw s)
      (map_zero_fill-stores logical count s space (small, omega arith) is_user is_rw)
      λ _ t (r, _).
        let table : cr2 / 2 ^ 22 ≡ (logical / page_size + i) / 1024 = omega arith in
        let marked : (bit_and (t.pt_map (cr2 / page_size)) zero_fill == 0) ≡ false =
          rw (at, r.entry i lt) (zero_fill_marked is_user is_rw) in
        page_fault_lem heap_start heap_end cr2 t cb (rw table (r.there i lt)) r.index_small
          (omega (arith, r.pages))
        ∙ rw marked
