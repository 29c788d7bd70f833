-- ===== src/Mm/Page/Tables.antt =====
-- `MM_GetPTAddress` makes the page table that it is asked for, and leaves every other one alone.
use valeo.Base.{
  ℕ, ◌+◌, ◌-◌, ◌*◌, ◌/◌, ◌%◌, ◌^◌, ◌≤◌, ◌<◌, ◌≡◌, refl, ◌∷◌, ◌⊎◌, inl, inr, false, bit_and, bit_or,
  arith, ◌==◌, Bool-cases,
}
use valeo.Base.Bits.{and-one, or_halve}
use valeo.Base.Run.{ok, Returns, update}
use valeo.Mm.Page.{
  Paging, window, pd, present, rw_flag, u32, empty_index, page_size, get_free, new_table,
  get_pt_address, cleared, invalidate_page,
}

abbrev pub IsPresent : ℕ → Type 0
IsPresent entry = entry % 2 ≡ 1

-- The pages on the free page stack: an index of -1 stands for none.
abbrev pub available : Paging → ℕ
available s = u32 (s.fps_index + 1)

-- From `s` to `t` no page table that was there has gone, and of their entries, those that hold the
-- directory left aside, only those from `lo` to `lo + count` may have changed.
pub record Kept (lo count : ℕ) (s t : Paging) : Type 0 where
  pub tables : (d : ℕ) → IsPresent (pd s d) → pd t d ≡ pd s d
  pub entries :
      (j : ℕ)
      → j < window
      → IsPresent (pd s (j / 1024))
      → (j < lo) ⊎ (lo + count ≤ j)
      → t.pt_map j ≡ s.pt_map j

pub or-IsPresent : (a : ℕ) → IsPresent (bit_or (bit_or a 1) 2)
or-IsPresent a = omega (arith, or_halve (bit_or a 1) 2, or_halve a 1)

-- What holds when the table of directory entry `pde` has been asked for.
pub record TableReady (pde : ℕ) (s : Paging) (pt : ℕ) (t : Paging) : Type 0 where
  pub address : pt ≡ pde * 2 ^ 22
  pub ready : IsPresent (pd t pde)
  pub kept : Kept 0 0 s t
  pub index_small : t.fps_index < 2 ^ 32
  pub one_page : available s ≤ available t + 1

-- With a page on the stack, `MM_Page_GetFree` takes the top one.
abbrev pub popped : Paging → Paging
popped s = record s { fps_index = u32 (s.fps_index + 2 ^ 32 - 1) }

pub get_free-pops :
    (s : Paging)
    → s.fps_index < 2 ^ 32
    → 1 ≤ available s
    → get_free s ≡ ok (s.fps s.fps_index) (popped s)
unfolding get_free
get_free-pops s small enough = let e : (s.fps_index == empty_index) ≡ false = ground arith in rw e

abbrev pub with_table : ℕ → ℕ → Paging → Paging
with_table logical pde s = record s {
  fps_index = u32 (s.fps_index + 2 ^ 32 - 1);
  pt_map =
      cleared (update s.pt_map (window + pde) (bit_or (bit_or (s.fps s.fps_index) present) rw_flag))
        (pde * 2 ^ 10) (page_size / 4);
  effects = invalidate_page logical ∷ s.effects;
}

with_table-ready :
    (logical pde : ℕ) (s : Paging)
    → s.fps_index < 2 ^ 32
    → 1 ≤ available s
    → pd s pde % 2 ≡ 0
    → pde < 1023
    → TableReady pde s (pde * 2 ^ 22) (with_table logical pde s)
with_table-ready logical pde s small enough missing low = record {
  address = refl;
  ready = ground (arith, or-IsPresent (s.fps s.fps_index));
  kept = record { tables = λ d p. ground arith; entries = λ j l p o. ground arith };
  index_small = omega arith;
  one_page = omega arith;
}

-- With a page on the stack, `MM_GetPTAddress` at an address below the page table map returns the first
-- address that the page table of its argument covers, and that table is then there. At most one page is used, no other table changes,
-- and the entries of a table that was there stay.
pub get_pt_address-ready :
    (logical : ℕ) (s : Paging)
    → s.fps_index < 2 ^ 32
    → 1 ≤ available s
    → logical / 2 ^ 22 < 1023
    → Returns (TableReady (logical / 2 ^ 22) s) (get_pt_address logical s)
unfolding get_pt_address new_table
get_pt_address-ready logical s small enough low =
    elim (Bool-cases (bit_and (pd s (logical / 2 ^ 22)) 1 == 0)) [
      | inl missing ↦
          rw (missing, get_free-pops s small enough)
            (with_table-ready logical (logical / 2 ^ 22) s small enough
              (ground (arith, and-one (pd s (logical / 2 ^ 22)))) low)
      | inr there ↦ rw there (record {
        address = refl;
        ready = ground (arith, and-one (pd s (logical / 2 ^ 22)));
        kept = record { tables = λ d p. refl; entries = λ j l p o. refl };
        index_small = small;
        one_page = omega arith;
      })
    ]
