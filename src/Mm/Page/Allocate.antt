-- ===== src/Mm/Page/Allocate.antt =====
-- What `MM_Page_Allocate` of src/mm_page.c does where the page table is there.
use valeo.Base.{
  ℕ, ◌+◌, ◌-◌, ◌*◌, ◌/◌, ◌^◌, ◌≤◌, ◌<◌, ◌≡◌, Bool, true, false, arith, bit_or, if◌then◌else◌, ◌∷◌,
}
use valeo.Base.Run.{ok, halted, update}
use valeo.Mm.Page.{
  Paging, pd, u32, page_size, allocate, present, rw_flag, clear_memory, invalidate_page,
  empty_index,
}
use valeo.Mm.Page.Tables.{IsPresent, available, get_free-pops}
use valeo.Mm.Page.Free.{get_pt_address-there}
use valeo.Mm.Page.Stack.{get_free-empty}

-- The state after the top page has been mapped at `logical`, read and write, and cleared on request.
abbrev pub allocated : (logical : ℕ) (is_zero_fill : Bool) → Paging → Paging
allocated logical is_zero_fill s = record s {
  fps_index = u32 (s.fps_index + 2 ^ 32 - 1);
  pt_map =
      update s.pt_map (logical / page_size) (bit_or (bit_or (s.fps s.fps_index) present) rw_flag);
  effects =
      invalidate_page logical
      ∷ (if is_zero_fill then clear_memory logical page_size ∷ s.effects else s.effects);
}

module _ (logical : ℕ) (s : Paging) (lb : logical < 2 ^ 32)
    (there : IsPresent (pd s (logical / 2 ^ 22))) where
  -- The index that the code computes is the page's number.
  index :
      logical / 2 ^ 22 * 2 ^ 22 / 2 ^ 12
        + u32 (logical + 2 ^ 32 - logical / 2 ^ 22 * 2 ^ 22) / 2 ^ 12
      ≡ logical / page_size
  index = omega arith

  -- With the page table of the address there and a page on the stack, `MM_Page_Allocate` returns:
  -- it has taken the top page, mapped it present and writable at the address, cleared it if asked
  -- to, and invalidated the page.
  pub allocate-allocated :
      (is_zero_fill : Bool)
      → s.fps_index < 2 ^ 32
      → 1 ≤ available s
      → allocate logical is_zero_fill s ≡ ok tt (allocated logical is_zero_fill s)
  unfolding allocate
  allocate-allocated true small enough =
      rw (get_pt_address-there logical s there, get_free-pops s small enough, index)
  allocate-allocated false small enough =
      rw (get_pt_address-there logical s there, get_free-pops s small enough, index)

  pub allocate-empty :
      (is_zero_fill : Bool) → s.fps_index ≡ empty_index → allocate logical is_zero_fill s ≡ halted s
  unfolding allocate
  allocate-empty is_zero_fill e = rw (get_pt_address-there logical s there, get_free-empty s e)
