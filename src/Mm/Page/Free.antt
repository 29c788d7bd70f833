-- ===== src/Mm/Page/Free.antt =====
-- What `MM_Page_Free` of src/mm_page.c does: its test of the physical address also reads the flag
-- that marks the page as present.
use valeo.Base.{
  ℕ, zero, suc, ◌+◌, ◌-◌, ◌*◌, ◌/◌, ◌%◌, ◌^◌, ◌≤◌, ◌<◌, ◌≡◌, refl, ap, ◌∙◌, inl, inr, true, false,
  arith, bit_and, ◌==◌, ltb, ◌∷◌, Bool-cases, ℕ_discrete,
}
use valeo.Base.Bits.{and-one, and-mask}
use valeo.Base.Run.{ok, halted, Run, ◌>>◌, and_then}
use valeo.Mm.Page.{
  Paging, pd, Mm, u32, page_size, cursor, walk, over_pages, free, free_entry, get_pt_address,
  reload_cr3, emit,
}
use valeo.Mm.Page.Tables.{IsPresent}
use valeo.Mm.Page.Map.{InSpace}

free_entry-absent : (i : ℕ) (s : Paging) → s.pt_map i % 2 ≡ 0 → free_entry i s ≡ ok tt s
unfolding free_entry
free_entry-absent i s h =
    let e : (bit_and (s.pt_map i) 1 == 0) ≡ true = ground (arith, and-one (s.pt_map i)) in rw e

free_entry-present : (i : ℕ) (s : Paging) → IsPresent (s.pt_map i) → free_entry i s ≡ halted s
unfolding free_entry
free_entry-present i s h =
    let e : (bit_and (s.pt_map i) 1 == 0) ≡ false = ground (arith, and-one (s.pt_map i)) in
    let d : ltb 0 (bit_and (s.pt_map i) 0xfff) ≡ true = ground (arith, and-mask 12 (s.pt_map i)) in
    rw (e, d)

pub get_pt_address-there :
    (logical : ℕ) (s : Paging)
    → IsPresent (pd s (logical / 2 ^ 22))
    → get_pt_address logical s ≡ ok (logical / 2 ^ 22 * 2 ^ 22) s
unfolding get_pt_address
get_pt_address-there logical s h =
    let e : (bit_and (pd s (logical / 2 ^ 22)) 1 == 0) ≡ false =
      ground (arith, and-one (pd s (logical / 2 ^ 22))) in
    rw e

-- Where the table of the next entry is there, moving to it changes nothing.
record Still (index : ℕ) (s : Paging) (r : Run Paging (ℕ × ℕ)) : Type 0 where
  pt : ℕ
  offset : ℕ
  returns : r ≡ ok (pt, offset) s
  here : pt + offset ≡ index
  aligned : pt % 1024 ≡ 0
  inside : offset < 1024

still :
    (pt offset logical index : ℕ) (s : Paging)
    → pt + offset ≡ index
    → pt % 1024 ≡ 0
    → offset ≤ 1024
    → logical / 2 ^ 12 ≡ index
    → IsPresent (pd s (index / 1024))
    → Still index s (cursor pt offset logical s)
unfolding cursor
still pt offset logical index s e al off l there = elim (Bool-cases (offset == 1024)) [
  | inl end ↦
      let d : logical / 2 ^ 22 ≡ index / 1024 = omega (arith, l) in
      record {
        pt = logical / 2 ^ 22 * 2 ^ 22 / 2 ^ 12;
        offset = 0;
        returns = rw (end, get_pt_address-there logical s (rw d there));
        here = ground arith;
        aligned = omega arith;
        inside = omega arith;
      }
  | inr more ↦ record {
    pt = pt;
    offset = offset;
    returns = rw more;
    here = e;
    aligned = al;
    inside = ground arith;
  }
]

-- Every page of the range has its table.
abbrev pub HasTables : ℕ → ℕ → Paging → Type 0
HasTables index count s = (j : ℕ) → index ≤ j → j < index + count → IsPresent (pd s (j / 1024))

abbrev Body : Type 0
Body = ℕ → ℕ → Mm (Unit {0})

walk-step :
    (body : Body) (count pt offset logical physical index : ℕ) (s : Paging)
    → (c : Still index s (cursor pt offset logical s))
    → walk body (suc count) pt offset logical physical s
      ≡ (body index physical
            >> walk body count c.pt
                (c.offset + 1)
                (u32 (logical + page_size))
                (u32 (physical + page_size)))
          s
unfolding walk
walk-step body count pt offset logical physical index s c = rw c.returns (
    ap
      (λ i.
        (body i physical
            >> walk body count c.pt (c.offset + 1) (u32 (logical + page_size))
                (u32 (physical + page_size)))
          s)
      c.here)

module _ (s : Paging) where
  abbrev pub Absent : ℕ → ℕ → Type 0
  Absent index count = (j : ℕ) → index ≤ j → j < index + count → s.pt_map j % 2 ≡ 0

  -- The loop over pages that are all absent changes nothing.
  walk-Absent :
      (count pt offset logical physical index : ℕ)
      → pt + offset ≡ index
      → pt % 1024 ≡ 0
      → offset ≤ 1024
      → (0 < count → logical / 2 ^ 12 ≡ index)
      → index + count ≤ 2 ^ 20
      → HasTables index count s
      → Absent index count
      → walk (λ i _. free_entry i) count pt offset logical physical s ≡ ok tt s
  unfolding walk
  walk-Absent zero pt offset logical physical index e al off l fits there absent = refl
  walk-Absent (suc count) pt offset logical physical index e al off l fits there absent =
      walk-step (λ i _. free_entry i) count pt offset logical physical index s c
      ∙ ap (λ r. and_then r (λ _. next))
          (free_entry-absent index s (absent index (omega arith) (omega arith)))
      ∙ walk-Absent count c.pt (c.offset + 1) (u32 (logical + page_size))
          (u32 (physical + page_size)) (index + 1) (omega (arith, c.here)) c.aligned
          (omega (arith, c.inside)) (λ h. omega (arith, l (omega arith))) (omega arith)
          (λ j p q. there j (omega arith) (omega arith))
          (λ j p q. absent j (omega arith) (omega arith))
    where
      c : Still index s (cursor pt offset logical s)
      c =
          still pt offset logical index s e al off (l (omega arith))
            (there index (omega arith) (omega arith))

      next : Mm (Unit {0})
      next =
          walk (λ i _. free_entry i) count c.pt (c.offset + 1) (u32 (logical + page_size))
            (u32 (physical + page_size))

  -- The loop halts at the first page that is present, and changes nothing on the way to it.
  walk-halts :
      (count pt offset logical physical index j : ℕ)
      → pt + offset ≡ index
      → pt % 1024 ≡ 0
      → offset ≤ 1024
      → (0 < count → logical / 2 ^ 12 ≡ index)
      → index + count ≤ 2 ^ 20
      → HasTables index count s
      → index ≤ j
      → j < index + count
      → IsPresent (s.pt_map j)
      → walk (λ i _. free_entry i) count pt offset logical physical s ≡ halted s
  walk-halts zero pt offset logical physical index j e al off l fits there lo hi h =
      absurd (omega arith)
  walk-halts (suc count) pt offset logical physical index j e al off l fits there lo hi h =
      walk-step (λ i _. free_entry i) count pt offset logical physical index s c
      ∙ elim (ℕ_discrete (s.pt_map index % 2) 1) [
        | yes here ↦ ap (λ r. and_then r (λ _. next)) (free_entry-present index s here)
        | no gone ↦
            ap (λ r. and_then r (λ _. next)) (free_entry-absent index s (omega arith))
            ∙ elim (ℕ_discrete index j) [
              | yes same ↦ absurd (gone (rw same h))
              | no other ↦
                  walk-halts count c.pt (c.offset + 1) (u32 (logical + page_size))
                    (u32 (physical + page_size)) (index + 1) j (omega (arith, c.here)) c.aligned
                    (omega (arith, c.inside)) (λ h. omega (arith, l (omega arith))) (omega arith)
                    (λ j p q. there j (omega arith) (omega arith)) (omega arith) (omega arith) h
            ]
      ]
    where
      c : Still index s (cursor pt offset logical s)
      c =
          still pt offset logical index s e al off (l (omega arith))
            (there index (omega arith) (omega arith))

      next : Mm (Unit {0})
      next =
          walk (λ i _. free_entry i) count c.pt (c.offset + 1) (u32 (logical + page_size))
            (u32 (physical + page_size))

-- The start of `free` where the first table is there.
free-enters :
    (logical count : ℕ) (s : Paging)
    → InSpace logical count
    → IsPresent (pd s (logical / 2 ^ 22))
    → free logical count s
      ≡ and_then
          (walk
            (λ i _. free_entry i)
            count
            (logical / 2 ^ 22 * 2 ^ 22 / 2 ^ 12)
            (u32 (logical + 2 ^ 32 - logical / 2 ^ 22 * 2 ^ 22) / 2 ^ 12)
            logical
            0
            s)
          (λ _. emit reload_cr3)
unfolding free over_pages
free-enters logical count s space there = rw (get_pt_address-there logical s there)

module _ (logical count : ℕ) (s : Paging) (space : InSpace logical count)
    (there : HasTables (logical / page_size) count s)
    (first : IsPresent (pd s (logical / 2 ^ 22))) where
  -- On a range in the 32-bit address space whose page tables are there, `MM_Page_Free` halts the
  -- machine if any page of the range is present, whatever its entry is, and no page has been freed
  -- by then.
  pub free-halts :
      (j : ℕ)
      → logical / page_size ≤ j
      → j < logical / page_size + count
      → IsPresent (s.pt_map j)
      → free logical count s ≡ halted s
  free-halts j lo hi h =
      free-enters logical count s space first
      ∙ ap (λ r. and_then r (λ _. emit reload_cr3))
          (walk-halts s count (logical / 2 ^ 22 * 2 ^ 22 / 2 ^ 12)
            (u32 (logical + 2 ^ 32 - logical / 2 ^ 22 * 2 ^ 22) / 2 ^ 12) logical 0
            (logical / page_size) j (omega (arith, space.0)) (omega arith) (omega (arith, space.0))
            (λ h. refl) (omega (arith, space.1)) there lo hi h)

  -- On a range in the 32-bit address space whose page tables are there and of which no page is
  -- present, `MM_Page_Free` only reloads CR3.
  pub free-Absent :
      Absent s (logical / page_size) count
      → free logical count s ≡ ok tt (record s { effects = reload_cr3 ∷ s.effects })
  free-Absent absent =
      free-enters logical count s space first
      ∙ ap (λ r. and_then r (λ _. emit reload_cr3))
          (walk-Absent s count (logical / 2 ^ 22 * 2 ^ 22 / 2 ^ 12)
            (u32 (logical + 2 ^ 32 - logical / 2 ^ 22 * 2 ^ 22) / 2 ^ 12) logical 0
            (logical / page_size) (omega (arith, space.0)) (omega arith) (omega (arith, space.0))
            (λ h. refl) (omega (arith, space.1)) there absent)
