-- ===== src/Mm/Setup/Steps.antt =====
-- The states that `MM_Init` of src/mm.c goes through, and what the last one holds.
use valeo.Base.{
  ℕ, ◌+◌, ◌*◌, ◌/◌, ◌%◌, ◌^◌, ◌≤◌, ◌<◌, ◌≡◌, refl, ap, sym, ◌∙◌, ◌⊎◌, inl, inr, true, false, bit_or,
  arith, List, ◌∷◌, drop, get_or,
}
use valeo.Base.Run.{update}
use valeo.Mm.Page.{Paging, window, pd, page_size, present, rw_flag, reload_cr3, flags}
use valeo.Mm.Page.Tables.{popped, with_table}
use valeo.Mm.Page.Stack.{free_pages, free_pages-popped, free_pages-same, free_pages-some}
use valeo.Mm.Page.Inside.{Inside}
use valeo.Mm.Page.Allocate.{allocated}
use valeo.Mm.Setup.{Sizes, heap_start}

-- The pages of a free page stack for `n` pages of memory, and the first address behind it.
abbrev pub stack_pages : ℕ → ℕ
stack_pages n = (n * 4 + 4095) / page_size

abbrev pub stack_end : ℕ → ℕ
stack_end n = 0x300000 + stack_pages n * page_size

-- Entries for the kernel: present, and writable
abbrev pub kernel_page : ℕ → ℕ
kernel_page frame = bit_or frame (flags present false true)

-- The entry by which a page of the free page stack is mapped
abbrev pub own_page : ℕ → ℕ
own_page frame = bit_or (bit_or frame present) rw_flag

-- What `MM_Init` leaves: the free page stack mapped at the end of the kernel, pages of it taken for the
-- table of the heap, its first page and the table of the text screen, and no identity map.
pub record SetUp (n kernel_end a b c : ℕ) (left : List ℕ) (z : Sizes) (s t : Paging) : Type 0 where
  pub sizes : z ≡ record {
    size_pages = n;
    size_kb = n * 4;
    kernel_end = kernel_end + stack_pages n * page_size;
  }
  pub pages : free_pages t ≡ left
  pub identity : pd t 0 ≡ 0
  pub heap_table : pd t 976 ≡ own_page a
  pub heap_page : t.pt_map (heap_start / page_size) ≡ own_page b
  pub heap_rest : (i : ℕ) → 0 < i → i < 1024 → t.pt_map (heap_start / page_size + i) ≡ 0
  pub screen_table : pd t 768 ≡ own_page c
  pub directory : (d : ℕ) → 0 < d → (d < 768) ⊎ (768 < d) → (d < 976) ⊎ (976 < d) → pd t d ≡ pd s d
  pub screen :
      (i : ℕ)
      → i < 8
      → t.pt_map (0xc0000000 / page_size + i) ≡ kernel_page (0xb8000 + i * page_size)
  pub stack :
      (i : ℕ)
      → i < stack_pages n
      → t.pt_map (kernel_end / page_size + i) ≡ kernel_page (0x300000 + i * page_size)
  pub others :
      (j : ℕ)
      → 1024 ≤ j
      → j < window
      → (j / 1024 < 768) ⊎ (768 < j / 1024)
      → (j / 1024 < 976) ⊎ (976 < j / 1024)
      → (j < kernel_end / page_size) ⊎ (kernel_end / page_size + stack_pages n ≤ j)
      → t.pt_map j ≡ s.pt_map j

-- Pages taken for the table of the heap and for its first page
abbrev pub with_heap_table : Paging → Paging
with_heap_table s = with_table heap_start 976 s

abbrev pub with_heap : Paging → Paging
with_heap s = allocated heap_start true (with_heap_table s)

-- The directory entry of the identity map cleared, and CR3 loaded again
abbrev pub switched : Paging → Paging
switched s = record s { pt_map = update s.pt_map window 0; effects = reload_cr3 ∷ s.effects }

-- A page taken for the table of the text screen
abbrev pub with_screen : Paging → Paging
with_screen s = with_table 0xc0000000 768 (switched s)

-- The states of `MM_Init` between its parts
pub record Steps (n kernel_end a b c : ℕ) (left : List ℕ) (s s1 s2 s3 t : Paging) : Type 0 where
  pub mapped : Inside kernel_page (kernel_end / page_size) (stack_pages n) 0x300000 s s1
  pub filled : free_pages s2 ≡ a ∷ b ∷ c ∷ left
  pub same_map : s2.pt_map ≡ s1.pt_map
  pub small : s2.fps_index < 2 ^ 32
  pub unmapped : Inside (λ _. 0) 0 1024 0 (with_heap s2) s3
  pub shown : Inside kernel_page 786432 8 0xb8000 (with_screen s3) t

-- The top page, and what is left without it
pub top-popped :
    (s : Paging) (p : ℕ) (ps : List ℕ)
    → s.fps_index < 2 ^ 32
    → free_pages s ≡ p ∷ ps
    → (s.fps s.fps_index ≡ p) × (free_pages (popped s) ≡ ps)
top-popped s p ps small e =
    let split = sym (free_pages-popped s small (free_pages-some s p ps e)) ∙ e in
    (ap (λ l. get_or l 0 0) split, ap (drop 1) split)

module _ (s : Paging) (a b c : ℕ) (left : List ℕ) (small : s.fps_index < 2 ^ 32)
    (e : free_pages s ≡ a ∷ b ∷ c ∷ left) where
  abbrev first : (s.fps s.fps_index ≡ a) × (free_pages (popped s) ≡ b ∷ c ∷ left)
  first = top-popped s a (b ∷ c ∷ left) small e

  pub table_pages : free_pages (with_heap_table s) ≡ b ∷ c ∷ left
  table_pages = free_pages-same (popped s) (with_heap_table s) refl refl ∙ first.1

  abbrev second :
      ((with_heap_table s).fps (with_heap_table s).fps_index ≡ b)
      × (free_pages (popped (with_heap_table s)) ≡ c ∷ left)
  second = top-popped (with_heap_table s) b (c ∷ left) (omega arith) table_pages

  -- The pages that the heap takes
  pub with_heap-table : pd (with_heap s) 976 ≡ own_page a
  with_heap-table = ground arith ∙ ap own_page first.0

  pub with_heap-page : (with_heap s).pt_map 999424 ≡ own_page b
  with_heap-page = ground arith ∙ ap own_page second.0

  pub with_heap-pages : free_pages (with_heap s) ≡ c ∷ left
  with_heap-pages = free_pages-same (popped (with_heap_table s)) (with_heap s) refl refl ∙ second.1

pub with_heap-kept :
    (s : Paging) (j : ℕ)
    → (j / 1024 < 976) ⊎ (976 < j / 1024)
    → (j < window + 976) ⊎ (window + 976 < j)
    → (with_heap s).pt_map j ≡ s.pt_map j
with_heap-kept s j other entry = ground arith

module _ (n kernel_end a b c : ℕ) (left : List ℕ) (s s1 s2 s3 t : Paging)
    (high : 2 ^ 22 ≤ kernel_end) (apart : (kernel_end / 2 ^ 22 < 768) ⊎ (768 < kernel_end / 2 ^ 22))
    (apart' : (kernel_end / 2 ^ 22 < 976) ⊎ (976 < kernel_end / 2 ^ 22))
    (below : kernel_end / page_size < window)
    (one_table : kernel_end / page_size % 1024 + stack_pages n ≤ 1024)
    (p : Steps n kernel_end a b c left s s1 s2 s3 t) where
  on_stack : free_pages (switched s3) ≡ c ∷ left
  on_stack =
      free_pages-same (with_heap s2) (switched s3) p.unmapped.stack p.unmapped.top
      ∙ with_heap-pages s2 a b c left p.small p.filled

  abbrev third :
      ((switched s3).fps (switched s3).fps_index ≡ c) × (free_pages (popped (switched s3)) ≡ left)
  third = top-popped (switched s3) c left (omega (arith, p.unmapped.top)) on_stack

  -- An entry behind the first table that is not in the screen's
  late :
      (j : ℕ)
      → 1024 ≤ j
      → (j / 1024 < 768) ⊎ (768 < j / 1024)
      → (j < window) ⊎ (window < j)
      → (j < window + 768) ⊎ (window + 768 < j)
      → t.pt_map j ≡ (with_heap s2).pt_map j
  late j h other not_first entry =
      let clear : (with_screen s3).pt_map j ≡ s3.pt_map j = ground arith in
      p.shown.outside j (ground arith) ∙ clear ∙ p.unmapped.outside j (inr (omega arith))

  entry_kept :
      (j : ℕ)
      → 1024 ≤ j
      → j < window
      → (j / 1024 < 768) ⊎ (768 < j / 1024)
      → (j / 1024 < 976) ⊎ (976 < j / 1024)
      → t.pt_map j ≡ s1.pt_map j
  entry_kept j h low other other' =
      late j h other (inl low) (inl (omega arith))
      ∙ with_heap-kept s2 j other' (inl (omega arith))
      ∙ ap (λ f. f j) p.same_map

  pub SetUp-from :
      SetUp n kernel_end a b c left
        (record {
          size_pages = n;
          size_kb = n * 4;
          kernel_end = kernel_end + stack_pages n * page_size;
        })
        s
        t
  SetUp-from = record {
    sizes = refl;
    pages = free_pages-same (popped (switched s3)) t p.shown.stack p.shown.top ∙ third.1;
    identity = p.shown.outside window (inr (omega arith)) ∙ ground arith;
    heap_table =
        late (window + 976) (omega arith) (inr (omega arith)) (inr (omega arith))
          (inr (omega arith))
        ∙ with_heap-table s2 a b c left p.small p.filled;
    heap_page =
        late 999424 (omega arith) (inr (omega arith)) (inl (omega arith)) (inl (omega arith))
        ∙ with_heap-page s2 a b c left p.small p.filled;
    heap_rest = λ i pos h.
        late (999424 + i) (omega arith) (inr (omega arith)) (inl (omega arith)) (inl (omega arith))
        ∙ ground arith;
    screen_table =
        p.shown.outside (window + 768) (inr (omega arith)) ∙ ground arith ∙ ap own_page third.0;
    directory = λ d pos other other'.
        late (window + d) (omega arith) (inr (omega arith)) (inr (omega arith)) (ground arith)
        ∙ with_heap-kept s2 (window + d) (inr (omega arith)) (ground arith)
        ∙ ap (λ f. f (window + d)) p.same_map
        ∙ p.mapped.outside (window + d) (inr (omega arith));
    screen = λ i h. p.shown.entry i h ∙ ap kernel_page (omega arith);
    stack = λ i h.
        entry_kept (kernel_end / page_size + i) (omega arith) (omega arith) (in_table 768 i apart h)
          (in_table 976 i apart' h)
        ∙ p.mapped.entry i h
        ∙ ap kernel_page (omega arith);
    others = λ j h low d d' o. entry_kept j h low d d' ∙ p.mapped.outside j o;
  }
    where
      in_table :
          (k i : ℕ)
          → (kernel_end / 2 ^ 22 < k) ⊎ (k < kernel_end / 2 ^ 22)
          → i < stack_pages n
          → ((kernel_end / page_size + i) / 1024 < k) ⊎ (k < (kernel_end / page_size + i) / 1024)
      in_table k i apart h =
          let same : (kernel_end / page_size + i) / 1024 ≡ kernel_end / 2 ^ 22 = omega arith in
          rw same apart
