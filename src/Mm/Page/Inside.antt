-- ===== src/Mm/Page/Inside.antt =====
-- The routines of src/mm_page.c over pages of one page table, which need no further table.
use valeo.Base.{
  ℕ, zero, suc, ◌+◌, ◌-◌, ◌*◌, ◌/◌, ◌%◌, ◌^◌, ◌≤◌, ◌<◌, ◌≡◌, refl, ap, ◌∙◌, ◌⊎◌, inl, false,
  bit_and, bit_or, arith, true, subst, ◌==◌, Bool,
}
use valeo.Base.Bits.{and-one}
use valeo.Base.Run.{ok, Returns, Returns-bind, Returns-mono, update}
use valeo.Mm.Page.{
  Paging, pd, Mm, present, flags, u32, page_size, set_pte, get_pt_address, cursor, walk, over_pages,
  map, unmap, new_table,
}
use valeo.Mm.Page.Tables.{IsPresent, available, get_free-pops, with_table}

-- The entries of a range have been stored, and no other; the stack is as before.
pub record Inside (g : ℕ → ℕ) (index count physical : ℕ) (s t : Paging) : Type 0 where
  pub entry : (i : ℕ) → i < count → t.pt_map (index + i) ≡ g (u32 (physical + i * page_size))
  pub outside : (j : ℕ) → (j < index) ⊎ (index + count ≤ j) → t.pt_map j ≡ s.pt_map j
  pub stack : t.fps ≡ s.fps
  pub top : t.fps_index ≡ s.fps_index

module _ (g : ℕ → ℕ) where
  abbrev store : ℕ → ℕ → Mm (Unit {0})
  store i p = set_pte i (g p)

  walk-Inside :
      (count pt offset logical physical : ℕ) (s : Paging)
      → offset + count ≤ 1024
      → physical < 2 ^ 32
      → Returns
          (λ _ t. Inside g (pt + offset) count physical s t)
          (walk store count pt offset logical physical s)
  unfolding walk cursor
  walk-Inside zero pt offset logical physical s fits pb = record {
    entry = λ i h. absurd (omega arith);
    outside = λ j h. refl;
    stack = refl;
    top = refl;
  }
  walk-Inside (suc count) pt offset logical physical s fits pb =
      let same : (offset == 1024) ≡ false = ground arith in
      let s1 = record s { pt_map = update s.pt_map (pt + offset) (g physical) } in
      rw same (
        Returns-mono (λ _ t. Inside g (pt + (offset + 1)) count (u32 (physical + page_size)) s1 t) _
          (walk store count pt (offset + 1) (u32 (logical + page_size)) (u32 (physical + page_size))
            s1)
          (walk-Inside count pt (offset + 1) (u32 (logical + page_size))
            (u32 (physical + page_size)) s1 (omega arith) (omega arith))
          λ _ t r. record {
            entry = λ i h. first_or_next i h r;
            outside = λ j h. r.outside j (ground arith) ∙ ground arith;
            stack = r.stack;
            top = r.top;
          })
    where
      first_or_next :
          (i : ℕ)
          → i < suc count
          → {t : Paging}
          → Inside g
              (pt + (offset + 1))
              count
              (u32 (physical + page_size))
              (record s { pt_map = update s.pt_map (pt + offset) (g physical) })
              t
          → t.pt_map (pt + offset + i) ≡ g (u32 (physical + i * page_size))
      first_or_next zero h {t} r =
          let here : update s.pt_map (pt + offset) (g physical) (pt + offset) ≡ g physical =
            ground arith in
          ap t.pt_map (omega arith)
          ∙ r.outside (pt + offset) (inl (omega arith))
          ∙ here
          ∙ ap g (omega arith)
      first_or_next (suc i) h {t} r =
          ap t.pt_map (omega arith) ∙ r.entry i (omega arith) ∙ ap g (omega arith)

  -- `u` is the state once the table is there.
  over_pages-Inside :
      (physical logical count : ℕ) (s u : Paging)
      → get_pt_address logical s ≡ ok (logical / 2 ^ 22 * 2 ^ 22) u
      → physical < 2 ^ 32
      → logical < 2 ^ 32
      → logical / page_size % 1024 + count ≤ 1024
      → Returns
          (λ _ t. Inside g (logical / page_size) count physical u t)
          (over_pages store physical logical count s)
  unfolding over_pages
  over_pages-Inside physical logical count s u table pb lb fits =
      let pt = logical / 2 ^ 22 * 2 ^ 22 in
      let offset = u32 (logical + 2 ^ 32 - pt) / 2 ^ 12 in
      let index : pt / 2 ^ 12 + offset ≡ logical / page_size = omega arith in
      rw table (
        Returns-bind (λ _ t. Inside g (pt / 2 ^ 12 + offset) count physical u t) _
          (walk store count (pt / 2 ^ 12) offset logical physical u) _
          (walk-Inside count (pt / 2 ^ 12) offset logical physical u (omega (arith, index)) pb)
          λ _ t r.
            let r' = subst (λ k. Inside g k count physical u t) index r in
            record { entry = r'.entry; outside = r'.outside; stack = r'.stack; top = r'.top })

-- A table that is there is found, and a missing one takes the top page of the stack.
pub table-there :
    (logical : ℕ) (s : Paging)
    → IsPresent (pd s (logical / 2 ^ 22))
    → get_pt_address logical s ≡ ok (logical / 2 ^ 22 * 2 ^ 22) s
unfolding get_pt_address
table-there logical s there =
    let e : (bit_and (pd s (logical / 2 ^ 22)) 1 == 0) ≡ false =
      ground (arith, and-one (pd s (logical / 2 ^ 22))) in
    rw e refl

pub table-made :
    (logical : ℕ) (s : Paging)
    → pd s (logical / 2 ^ 22) % 2 ≡ 0
    → s.fps_index < 2 ^ 32
    → 1 ≤ available s
    → get_pt_address logical s
      ≡ ok (logical / 2 ^ 22 * 2 ^ 22) (with_table logical (logical / 2 ^ 22) s)
unfolding get_pt_address new_table
table-made logical s missing small enough =
    let e : (bit_and (pd s (logical / 2 ^ 22)) 1 == 0) ≡ true =
      ground (arith, and-one (pd s (logical / 2 ^ 22))) in
    rw (e, get_free-pops s small enough) refl

-- What `MM_Page_Map` and `MM_Page_Unmap` leave, when the range lies in one table.
module _ (logical count : ℕ) (s u : Paging)
    (table : get_pt_address logical s ≡ ok (logical / 2 ^ 22 * 2 ^ 22) u) (lb : logical < 2 ^ 32)
    (fits : logical / page_size % 1024 + count ≤ 1024) where
  pub map-Inside :
      (physical : ℕ) (is_user is_rw : Bool)
      → physical < 2 ^ 32
      → Returns
          (λ _ t.
            Inside
              (λ p. bit_or p (flags present is_user is_rw))
              (logical / page_size)
              count
              physical
              u
              t)
          (map physical logical count is_user is_rw s)
  unfolding map
  map-Inside physical is_user is_rw pb =
      over_pages-Inside (λ p. bit_or p (flags present is_user is_rw)) physical logical count s u
        table pb lb fits

  pub unmap-Inside :
      Returns (λ _ t. Inside (λ _. 0) (logical / page_size) count 0 u t) (unmap logical count s)
  unfolding unmap
  unmap-Inside = over_pages-Inside (λ _. 0) 0 logical count s u table (omega arith) lb fits
