-- ===== src/Mm/Page/Stack.antt =====
-- The free page stack of src/mm_page.c as a stack: `MM_Page_GetFree` and `MM_Page_AddFree` against
-- the list of the pages that it holds, the top one first.
use valeo.Base.{
  ℕ, zero, suc, ◌+◌, ◌-◌, ◌^◌, ◌≤◌, ◌<◌, ◌≡◌, refl, ap, ap₂, sym, ◌≢◌, ◌∙◌, arith, List, [], ◌∷◌,
  ◌==◌, true,
}
use valeo.Base.Run.{ok, halted, update}
use valeo.Mm.Page.{Paging, u32, empty_index, get_free, add_free}
use valeo.Mm.Page.Tables.{available, popped, get_free-pops}

-- The first `n` entries of the array, the last one first.
pub pages : (ℕ → ℕ) → ℕ → List ℕ
pages f zero = []
pages f (suc n) = f n ∷ pages f n

pub free_pages : Paging → List ℕ
unfolding pages
free_pages s = pages s.fps (available s)

pages-update : (f : ℕ → ℕ) (n i v : ℕ) → n ≤ i → pages (update f i v) n ≡ pages f n
unfolding pages
pages-update f zero i v h = refl
pages-update f (suc n) i v h = ap₂ ◌∷◌ (ground arith) (pages-update f n i v (omega arith))

pub pages-zero : (f : ℕ → ℕ) → pages f 0 ≡ []
unfolding pages
pages-zero f = refl

pub pages-push : (f : ℕ → ℕ) (n v : ℕ) → pages (update f n v) (suc n) ≡ v ∷ pages f n
unfolding pages
pages-push f n v = ap₂ ◌∷◌ (ground arith) (pages-update f n n v (omega arith))

pub free_pages-index :
    (s : Paging) (n : ℕ)
    → s.fps_index ≡ u32 (n + 2 ^ 32 - 1)
    → n < 2 ^ 32
    → free_pages s ≡ pages s.fps n
unfolding free_pages
free_pages-index s n e small = ap (pages s.fps) (omega arith)

none_some : {p : ℕ} {ps : List ℕ} → [] ≢ p ∷ ps
none_some h = ground arith

pages-pos : (f : ℕ → ℕ) (n m : ℕ) → n ≡ suc m → pages f n ≡ f m ∷ pages f m
unfolding pages
pages-pos f n m e = rw e

-- With the index in 32 bits: an empty stack stops the machine.
pub get_free-empty : (s : Paging) → s.fps_index ≡ empty_index → get_free s ≡ halted s
unfolding get_free
get_free-empty s h = let e : (s.fps_index == empty_index) ≡ true = ground arith in rw e

-- While fewer pages are on the stack than its index can count, `MM_Page_AddFree` returns with the
-- page pushed on the stack.
pub free_pages-add_free :
    (s : Paging) (p : ℕ)
    → s.fps_index < 2 ^ 32
    → available s < empty_index
    → (t : Paging) × (add_free p s ≡ ok tt t) × (free_pages t ≡ p ∷ free_pages s)
unfolding add_free free_pages
free_pages-add_free s p small room =
    let i = u32 (s.fps_index + 1) in
    (
      record s { fps_index = i; fps = update s.fps i p },
      refl,
      pages-pos (update s.fps i p) (u32 (i + 1)) i (omega arith)
          ∙ ap₂ ◌∷◌ (ground arith) (pages-update s.fps i i p (omega arith)),
    )

pub free_pages-popped :
    (s : Paging)
    → s.fps_index < 2 ^ 32
    → 1 ≤ available s
    → free_pages s ≡ s.fps s.fps_index ∷ free_pages (popped s)
unfolding free_pages
free_pages-popped s small enough =
    pages-pos s.fps (available s) s.fps_index (omega arith)
    ∙ ap (λ n. s.fps s.fps_index ∷ pages s.fps n) (omega arith)

pub free_pages-same :
    (s t : Paging) → t.fps ≡ s.fps → t.fps_index ≡ s.fps_index → free_pages t ≡ free_pages s
unfolding free_pages
free_pages-same s t same top = ap₂ (λ f i. pages f (u32 (i + 1))) same top

pub free_pages-some : (s : Paging) (p : ℕ) (ps : List ℕ) → free_pages s ≡ p ∷ ps → 1 ≤ available s
unfolding free_pages
free_pages-some s p ps h = from_count (available s) h
  where
    from_count : (n : ℕ) → pages s.fps n ≡ p ∷ ps → 1 ≤ n
    from_count zero h = absurd (none_some (sym (pages-zero s.fps) ∙ h))
    from_count (suc n) h = omega arith

-- On a stack that is not empty, `MM_Page_GetFree` returns the top page and keeps the rest of the
-- stack.
pub free_pages-get_free :
    (s : Paging)
    → s.fps_index < 2 ^ 32
    → 1 ≤ available s
    → (p : ℕ) × (t : Paging) × (get_free s ≡ ok p t) × (free_pages s ≡ p ∷ free_pages t)
free_pages-get_free s small enough =
    (s.fps s.fps_index, popped s, get_free-pops s small enough, free_pages-popped s small enough)
