-- ===== src/Mm/Setup/Stacked.antt =====
-- The free page stack that `MM_Init` of src/mm.c makes, against the list of the usable pages.
use valeo.Base.{
  ℕ, zero, suc, ◌+◌, ◌-◌, ◌/◌, ◌%◌, ◌^◌, ◌≤◌, ◌<◌, ◌≡◌, refl, ap, sym, ◌∙◌, arith, Bool, true, List,
  [], ◌∷◌, ◌++◌, none, some, ◌==◌, bit_and, if◌then◌else◌, Bool-cases, ◌⊎◌, inl, inr,
}
use valeo.Base.Bits.{and-mask}
use mathlib.Core.List.{reverse_aux, reverse, reverse_aux-append}
use valeo.Base.Run.{ok, halted, Returns}
use valeo.Mm.Page.{Paging, u32, page_size}
use valeo.Mm.Page.Stack.{pages, free_pages, pages-zero, pages-push, free_pages-index}
use valeo.Mm.Setup.{
  BootInfo, regions, init, Region, start, pages_in, is_ram, count_pages, Filling, push, push_pages,
  push_regions, fill,
}

-- The page of an address, if it is not reserved.
abbrev kept : (reserved : ℕ → Bool) (addr : ℕ) → List ℕ
kept reserved addr = if reserved addr then [] else addr ∷ []

-- The pages of a range that are not reserved, in order.
abbrev usable_pages : (reserved : ℕ → Bool) (count addr : ℕ) → List ℕ
usable_pages reserved zero addr = []
usable_pages reserved (suc count) addr =
    kept reserved addr ++ usable_pages reserved count (u32 (addr + page_size))

-- The pages of main memory that are not reserved, in the order of the memory map.
unfoldable pub usable : (reserved : ℕ → Bool) → List Region → List ℕ
usable reserved [] = []
usable reserved (r ∷ rest) =
    (if is_ram r then usable_pages reserved (pages_in r) (start r) else []) ++ usable reserved rest

-- The pages of main memory.
unfoldable pub total : List Region → ℕ
total [] = 0
total (r ∷ rest) = (if is_ram r then pages_in r else 0) + total rest

-- The pages that a filling holds, the last one first.
abbrev held : Filling → List ℕ
held f = pages f.fps f.index

-- What a filling becomes when pages are pushed on it.
record Pushed (pages : List ℕ) (count : ℕ) (f g : Filling) : Type 0 where
  same : held g ≡ reverse_aux pages (held f)
  small : g.index ≤ f.index + count

Pushed-append :
    {a b : List ℕ} {m n : ℕ} {f g h : Filling}
    → Pushed a m f g
    → Pushed b n g h
    → Pushed (a ++ b) (m + n) f h
Pushed-append {a = a} {b = b} p q = record {
  same = q.same ∙ ap (reverse_aux b) p.same ∙ sym (reverse_aux-append a b _);
  small = omega (arith, p.small, q.small);
}

Pushed-count : {a : List ℕ} {m n : ℕ} {f g : Filling} → m ≡ n → Pushed a n f g → Pushed a m f g
Pushed-count e p = record { same = p.same; small = omega (arith, p.small) }

-- The stack has been made; the tables are as before.
pub record Filled (stack : List ℕ) (s t : Paging) : Type 0 where
  pub pages : free_pages t ≡ stack
  pub entries : t.pt_map ≡ s.pt_map
  pub small : t.fps_index < 2 ^ 32

module _ (reserved : ℕ → Bool) where
  push-Pushed :
      (addr : ℕ) (f : Filling)
      → f.index + 1 < 2 ^ 32
      → Pushed (kept reserved addr) 1 f (push reserved addr f)
  unfolding push
  push-Pushed addr f room = elim (Bool-cases (reserved addr)) [
    | inl skip ↦ rw skip (record { same = refl; small = omega arith })
    | inr take ↦
        let e : u32 (f.index + 1) ≡ suc f.index = omega arith in
        rw (take, e) (record { same = pages-push f.fps f.index addr; small = omega arith })
  ]

  push_pages-Pushed :
      (count addr : ℕ) (f : Filling)
      → f.index + count < 2 ^ 32
      → Pushed (usable_pages reserved count addr) count f (push_pages reserved count addr f)
  unfolding push_pages
  push_pages-Pushed zero addr f room = record { same = refl; small = omega arith }
  push_pages-Pushed (suc count) addr f room =
      let one = push-Pushed addr f (omega arith) in
      let e : suc count ≡ 1 + count = omega arith in
      Pushed-count e (
        Pushed-append one (
          push_pages-Pushed count (u32 (addr + page_size)) (push reserved addr f)
            (omega (arith, one.small))))

  region-Pushed :
      (r : Region) (f : Filling)
      → f.index + (if is_ram r then pages_in r else 0) < 2 ^ 32
      → Pushed
          (if is_ram r then usable_pages reserved (pages_in r) (start r) else [])
          (if is_ram r then pages_in r else 0)
          f
          (if is_ram r then push_pages reserved (pages_in r) (start r) f else f)
  region-Pushed r f room = elim (Bool-cases (is_ram r)) [
    | inl ram ↦ rw ram (push_pages-Pushed (pages_in r) (start r) f (ground arith))
    | inr other ↦ rw other (record { same = refl; small = omega arith })
  ]

  push_regions-Pushed :
      (rs : List Region) (f : Filling)
      → f.index + total rs < 2 ^ 32
      → Pushed (usable reserved rs) (total rs) f (push_regions reserved rs f)
  unfolding push_regions usable total
  push_regions-Pushed [] f room = record { same = refl; small = omega arith }
  push_regions-Pushed (r ∷ rest) f room =
      let one = region-Pushed r f (omega arith) in
      Pushed-append one (push_regions-Pushed rest _ (omega (arith, one.small)))

  -- What the second loop leaves besides the stack.
  fill-keeps :
      (rs : List Region) (s : Paging)
      → total rs < 2 ^ 32
      → (t : Paging) × (fill reserved rs s ≡ ok tt t)
        × (free_pages t ≡ reverse (usable reserved rs))
        × (t.pt_map ≡ s.pt_map)
        × (t.fps_index < 2 ^ 32)
  unfolding fill
  fill-keeps rs s room =
      let f : Filling = record { fps = s.fps; index = 0 } in
      let p = push_regions-Pushed rs f (omega arith) in
      (
        record s {
          fps = (push_regions reserved rs f).fps;
          fps_index = u32 ((push_regions reserved rs f).index + 2 ^ 32 - 1);
        },
        refl,
        free_pages-index _ (push_regions reserved rs f).index refl (omega (arith, p.small))
            ∙ p.same
            ∙ ap (reverse_aux (usable reserved rs)) (pages-zero s.fps),
        refl,
        omega arith,
      )

  pub fill-Filled :
      (rs : List Region) (s : Paging)
      → total rs < 2 ^ 32
      → Returns (λ _ t. Filled (reverse (usable reserved rs)) s t) (fill reserved rs s)
  fill-Filled rs s room =
      let (t, done, pages, entries, small) = fill-keeps rs s room in
      rw done (record { pages = pages; entries = entries; small = small })

-- Every entry of main memory starts on a page boundary.
unfoldable pub AllAligned : List Region → Type 0
AllAligned [] = Unit {0}
AllAligned (r ∷ rest) = (is_ram r ≡ true → start r % page_size ≡ 0) × AllAligned rest

aligned_or_not :
    (r : Region) → is_ram r ≡ true → start r % page_size ≡ 0 → (bit_and (start r) 0xfff == 0) ≡ true
aligned_or_not r ram h = ground (arith, and-mask 12 (start r))

-- If every entry of main memory starts on a page boundary, the first loop of `MM_Init` counts the
-- pages of main memory, in 32 bits.
pub count_pages-total :
    (n : ℕ) (rs : List Region)
    → n < 2 ^ 32
    → AllAligned rs
    → count_pages n rs ≡ some (u32 (n + total rs))
unfolding count_pages total AllAligned
count_pages-total n [] small all = ap some (omega arith)
count_pages-total n (r ∷ rest) small all = elim (Bool-cases (is_ram r)) [
  | inl ram ↦
      rw (ram, aligned_or_not r ram (all.0 ram))
        (count_pages-total (u32 (n + pages_in r)) rest (omega arith) all.1 ∙ ap some (omega arith))
  | inr other ↦ rw other (count_pages-total n rest small all.1 ∙ ap some (omega arith))
]

-- Without a memory map from the boot loader, or with an entry that the count does not accept, the
-- machine halts before anything is mapped.
pub init-halts :
    (entry_at : ℕ → Region) (info : BootInfo) (kernel_size kernel_end : ℕ) (s : Paging)
    → ((bit_and info.flags 64 == 0) ≡ true)
      ⊎ (count_pages 0 (regions entry_at (info.map_length / 24) info.map_addr) ≡ none)
    → init entry_at info kernel_size kernel_end s ≡ halted s
unfolding init
init-halts entry_at info kernel_size kernel_end s (inl no_map) = rw no_map refl
init-halts entry_at info kernel_size kernel_end s (inr bad) =
    elim (Bool-cases (bit_and info.flags 64 == 0)) [
      | inl no_map ↦ rw no_map refl
      | inr flag ↦ rw (flag, bad) refl
    ]
