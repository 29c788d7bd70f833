-- ===== src/Mm/Page/Map.antt =====
-- What the mapping routines of src/mm_page.c leave in the page tables.
use valeo.Base.{
  ℕ, ◌+◌, ◌-◌, ◌*◌, ◌/◌, ◌%◌, ◌^◌, ◌≤◌, ◌<◌, ◌≡◌, ap, ◌∙◌, Bool, true, false, arith, ◌==◌, bit_or,
  bit_and,
}
use valeo.Base.Bits.{and-one, or-fields, and-mask, and-shifted}
use valeo.Base.Run.{ok, Returns, Returns-mono}
use valeo.Mm.Page
use valeo.Mm.Page.{
  window, pd, offset_mask, page_mask, get_pt_address, Paging, u32, page_size, present, rw_flag,
  user, zero_fill, flags, map, map_zero_fill, unmap, get_pt_value,
}
use valeo.Mm.Page.Tables.{IsPresent}
use valeo.Mm.Page.Walk.{Stored, IsFlushed, HasPages, over_pages-stores}

-- A range of pages that lies below the page table map, whose last page is the directory.
abbrev pub BelowTables : ℕ → ℕ → Type 0
BelowTables logical count = (logical / page_size < window) × (logical / page_size + count ≤ window)

-- A range of pages that lies in the 32-bit address space.
abbrev pub InSpace : ℕ → ℕ → Type 0
InSpace logical count = (logical < 2 ^ 32) × (logical / page_size + count ≤ 2 ^ 20)

module _ (logical count : ℕ) (s : Paging) (space : BelowTables logical count)
    (pages : HasPages count s) where
  -- On a range of pages below the page table map, and with free pages for every page table that can be
  -- missing, `MM_Page_Map` returns: entry `i` of the range holds the physical address of page `i`
  -- with the flags asked for, its page table is there, no other entry of a page table that was
  -- there changes, the directory's own entries left aside, no page table goes, and at most one free page for each 1024 pages and two more
  -- are used. CR3 is reloaded last.
  pub map-stores :
      (physical : ℕ) (is_user is_rw : Bool)
      → physical < 2 ^ 32
      → Returns
          (λ _ t.
            Stored
              (λ p. bit_or p (flags present is_user is_rw))
              (logical / page_size)
              count
              physical
              (count / 1024 + 2)
              s
              t
            × IsFlushed t)
          (map physical logical count is_user is_rw s)
  unfolding map
  map-stores physical is_user is_rw pb =
      over_pages-stores (λ p. bit_or p (flags present is_user is_rw)) physical logical count s pb
        (omega (arith, space.0)) space.0 space.1 pages

  -- Under the conditions of a range below the page table map and of free pages for the page
  -- tables, `MM_Page_MapZeroFill` returns, and every entry of the range holds the mark for zero
  -- fill with the flags asked for, and no address. What it keeps and uses is bounded as for a
  -- mapping, and CR3 is reloaded last.
  pub map_zero_fill-stores :
      (is_user is_rw : Bool)
      → Returns
          (λ _ t.
            Stored
              (λ _. flags zero_fill is_user is_rw)
              (logical / page_size)
              count
              0
              (count / 1024 + 2)
              s
              t
            × IsFlushed t)
          (map_zero_fill logical count is_user is_rw s)
  unfolding map_zero_fill
  map_zero_fill-stores is_user is_rw =
      over_pages-stores (λ _. flags zero_fill is_user is_rw) 0 logical count s (omega arith)
        (omega (arith, space.0)) space.0 space.1 pages

  -- Under the conditions of a range below the page table map and of free pages for the page
  -- tables, `MM_Page_Unmap` returns, and every entry of the range is 0. No other entry of a page
  -- table that was there changes, the directory left aside, and CR3 is reloaded last.
  pub unmap-stores :
      Returns
        (λ _ t. Stored (λ _. 0) (logical / page_size) count 0 (count / 1024 + 2) s t × IsFlushed t)
        (unmap logical count s)
  unfolding unmap
  unmap-stores =
      over_pages-stores (λ _. 0) 0 logical count s (omega arith) (omega (arith, space.0)) space.0
        space.1 pages

-- A page whose table is there reads as its entry, and the read changes nothing.
pub get_pt_value-reads :
    (logical : ℕ) (s : Paging)
    → logical < 2 ^ 32
    → IsPresent (pd s (logical / 2 ^ 22))
    → get_pt_value logical s ≡ ok (s.pt_map (logical / page_size)) s
unfolding get_pt_value get_pt_address
get_pt_value-reads logical s lb there =
    let e : (bit_and (pd s (logical / 2 ^ 22)) 1 == 0) ≡ false =
      ground (arith, and-one (pd s (logical / 2 ^ 22))) in
    rw e (ap (λ i. ok (s.pt_map i) s) (omega arith))

-- An entry for a page-aligned frame splits into the frame and the flags.
pub entry_parts :
    (frame f : ℕ)
    → frame < 2 ^ 32
    → frame % page_size ≡ 0
    → f < page_size
    → (bit_and (bit_or frame f) 0xfffff000 ≡ frame) × (bit_and (bit_or frame f) 0xfff ≡ f)
entry_parts frame f fb al small = (
  ap (λ v. bit_and v 0xfffff000) sum
      ∙ and-shifted 12 (frame + f) (2 ^ 20 - 1)
      ∙ ap (λ q. q * 2 ^ 12) (and-mask 20 ((frame + f) / 2 ^ 12))
      ∙ omega arith,
  ap (λ v. bit_and v 0xfff) sum ∙ and-mask 12 (frame + f) ∙ omega arith,
)
  where
    split : frame ≡ frame / 2 ^ 12 * 2 ^ 12
    split = omega arith

    sum : bit_or frame f ≡ frame + f
    sum = ap (λ v. bit_or v f) split ∙ or-fields 12 (frame / 2 ^ 12) f small ∙ omega arith

flags_small : (is_user is_rw : Bool) → flags present is_user is_rw < page_size
flags_small false false = omega arith
flags_small false true = omega arith
flags_small true false = omega arith
flags_small true true = omega arith

-- What a lookup of page `i` of a mapped range finds: the frame, and the flags asked for.
pub record Finds (logical physical i : ℕ) (is_user is_rw : Bool) (t : Paging) : Type 0 where
  pub value : ℕ
  pub found : get_pt_value (logical + i * page_size) t ≡ ok value t
  pub frame : bit_and value page_mask ≡ u32 (physical + i * page_size)
  pub flags : bit_and value offset_mask ≡ Page.flags present is_user is_rw

-- On a range below the page table map and with pages enough for new page tables, `MM_Page_Map` of
-- page-aligned memory returns, and a lookup by `MM_GetPTValue` of any page of the range then finds its
-- frame and the flags asked for, and changes nothing.
pub map-get_pt_value :
    (physical logical count i : ℕ) (is_user is_rw : Bool) (s : Paging)
    → physical < 2 ^ 32
    → physical % page_size ≡ 0
    → BelowTables logical count
    → HasPages count s
    → i < count
    → Returns
        (λ _ t. Finds logical physical i is_user is_rw t)
        (map physical logical count is_user is_rw s)
map-get_pt_value physical logical count i is_user is_rw s pb al space pages h =
    Returns-mono _ _ (map physical logical count is_user is_rw s)
      (map-stores logical count s space pages physical is_user is_rw pb)
      λ _ t (r, _).
        let index : (logical + i * page_size) / page_size ≡ logical / page_size + i = omega arith in
        let table : (logical + i * page_size) / 2 ^ 22 ≡ (logical / page_size + i) / 1024 =
          omega arith in
        let parts =
          entry_parts (u32 (physical + i * page_size)) (flags present is_user is_rw) (omega arith)
            (omega arith) (flags_small is_user is_rw) in
        record {
          value = bit_or (u32 (physical + i * page_size)) (flags present is_user is_rw);
          found =
              get_pt_value-reads (logical + i * page_size) t (omega (arith, space.1))
                (rw table (r.there i h))
              ∙ ap (λ v. ok v t) (ap t.pt_map index ∙ r.entry i h);
          frame = parts.0;
          flags = parts.1;
        }
