-- ===== src/Mm/Heap/FirstFit.antt =====
-- `MM_Alloc` of src/mm_allocator.c is first fit over lists of regions.
use valeo.Base.{
  ℕ, zero, suc, ◌+◌, ◌-◌, ◌*◌, ◌/◌, ◌%◌, ◌^◌, ◌≤◌, ◌<◌, ◌≡◌, ◌⊎◌, inl, inr, refl, ap, ◌∙◌, subst,
  arith, List, [], ◌∷◌, ◌++◌, Option, none, some, length, length-append, true, false, Bool-cases,
  ◌==◌, leb, if◌then◌else◌,
}
use valeo.Base.Run.{ok, halted}
use valeo.Mm.Heap.{Heap, u32, needed_for, find_free, split, alloc}
use valeo.Mm.Heap.Chain.{Region, Fits, Seg, last_or, Seg-at, Has}
use valeo.Mm.Heap.Fresh.{needed_for-eq}
use valeo.Mm.Heap.Carve.{split-Has}

cons_fit : Region → Option (ℕ × List Region) → Option (ℕ × List Region)
cons_fit r none = none
cons_fit r (some (p, rs)) = some (p, r ∷ rs)

-- First fit: the address of the first region of `w` bytes or more, and the regions with `w` bytes cut off
-- its front.
pub first_fit : (w : ℕ) → List Region → Option (ℕ × List Region)
unfolding cons_fit
first_fit w [] = none
first_fit w ((p, n) ∷ rs) =
    if leb w n then some (p, (p + w, n - w) ∷ rs) else cons_fit (p, n) (first_fit w rs)

-- Every region that is big enough has 8 bytes to spare.
abbrev pub Roomy : (w : ℕ) → List Region → Type 0
Roomy w [] = Unit {0}
Roomy w ((p, n) ∷ rs) = ((n < w) ⊎ (w + 8 ≤ n)) × Roomy w rs

-- Each region is too small.
abbrev Small : (w : ℕ) → List Region → Type 0
Small w [] = Unit {0}
Small w ((p, n) ∷ rs) = (n < w) × Small w rs

-- Where the first fit is.
data Choice (w : ℕ) (rs : List Region) : Option (ℕ × List Region) → Type 0 where
  chosen :
      (xs : List Region) (p n : ℕ) (ys : List Region)
      → Small w xs
      → w + 8 ≤ n
      → rs ≡ xs ++ (p, n) ∷ ys
      → Choice w rs (some (p, xs ++ (p + w, n - w) ∷ ys))
  refused : Small w rs → Choice w rs none

Choice-cons :
    (w p n : ℕ) (rs : List Region) (r : Option (ℕ × List Region))
    → n < w
    → Choice w rs r
    → Choice w ((p, n) ∷ rs) (cons_fit (p, n) r)
unfolding cons_fit
Choice-cons w p n rs _ small (chosen xs q l ys smalls room e) =
    chosen ((p, n) ∷ xs) q l ys (small, smalls) room (ap (λ rs. (p, n) ∷ rs) e)
Choice-cons w p n rs _ small (refused smalls) = refused (small, smalls)

first_fit-Choice : (w : ℕ) (rs : List Region) → Roomy w rs → Choice w rs (first_fit w rs)
unfolding first_fit
first_fit-Choice w [] roomy = refused tt
first_fit-Choice w ((p, n) ∷ rs) (here, roomy) = elim (Bool-cases (leb w n)) [
  | inl fits ↦ rw fits (chosen [] p n rs tt (ground arith) refl)
  | inr small ↦
      rw small (Choice-cons w p n rs (first_fit w rs) (ground arith) (first_fit-Choice w rs roomy))
]

-- One region that the search passes.
find_free-step :
    (fuel w : ℕ) (s : Heap) (a prev p n : ℕ)
    → n < w
    → a ≡ p
    → Fits p n
    → s.mem p ≡ n
    → find_free (suc fuel) w a prev s ≡ find_free fuel w (s.mem (p + 4)) p s
unfolding find_free
find_free-step fuel w s a prev p n small here (not_null, inside) size =
    let there : (a == 0) ≡ false = ground arith in
    let too_small : leb w (s.mem a) ≡ false = rw here (ground arith) in
    let link : u32 (p + 4) ≡ p + 4 = omega arith in
    rw (there, too_small, here) (ap (λ k. find_free fuel w (s.mem k) p s) link)

find_free-hit :
    (fuel w : ℕ) (s : Heap) (a prev : ℕ) (xs : List Region) (p : ℕ)
    → length xs < fuel
    → Small w xs
    → Seg s.mem a xs p
    → 0 < p
    → w ≤ s.mem p
    → find_free fuel w a prev s ≡ ok (p, last_or prev xs) s
unfolding find_free
find_free-hit zero w s a prev xs p enough small seg there fits = absurd (omega arith)
find_free-hit (suc fuel) w s a prev [] p enough small seg there fits =
    let not_null : (p == 0) ≡ false = ground arith in
    let big : leb w (s.mem p) ≡ true = ground arith in rw (seg, not_null, big) refl
find_free-hit (suc fuel) w s a prev ((q, l) ∷ xs) p enough (small, smalls)
      (here, in_space, size, seg) there fits =
    find_free-step fuel w s a prev q l small here in_space size
    ∙ find_free-hit fuel w s (s.mem (q + 4)) q xs p (omega arith) smalls seg there fits

find_free-none :
    (fuel w : ℕ) (s : Heap) (a prev : ℕ) (rs : List Region)
    → length rs < fuel
    → Small w rs
    → Seg s.mem a rs 0
    → find_free fuel w a prev s ≡ halted s
unfolding find_free
find_free-none zero w s a prev rs enough small seg = absurd (omega arith)
find_free-none (suc fuel) w s a prev [] enough small seg =
    let null : (a == 0) ≡ true = ground arith in rw null refl
find_free-none (suc fuel) w s a prev ((q, l) ∷ rs) enough (small, smalls)
      (here, in_space, size, seg) =
    find_free-step fuel w s a prev q l small here in_space size
    ∙ find_free-none fuel w s (s.mem (q + 4)) q rs (omega arith) smalls seg

-- The search ends at a region that is big enough, behind those that are too small.
pub alloc-hit :
    (fuel size w : ℕ) (s : Heap) (xs : List Region) (p n : ℕ) (ys blocks : List Region)
    → needed_for size ≡ w
    → 8 ≤ w
    → w + 8 ≤ n
    → Small w xs
    → length xs < fuel
    → Has s (xs ++ (p, n) ∷ ys) blocks
    → alloc fuel size s ≡ ok (p + 8) (split w p (last_or 0 xs) s)
unfolding alloc
alloc-hit fuel size w s xs p n ys blocks needed least room small enough h =
    let (front, fits, here, back) = Seg-at s.mem s.free_head xs p n ys 0 h.free_chain in
    let run = find_free-hit fuel w s s.free_head 0 xs p enough small front fits.0 (omega arith) in
    let place : (p + 8) % 2 ^ 32 ≡ p + 8 = omega arith in rw (needed, run, place) refl

alloc-Choice :
    (fuel size w : ℕ) (s : Heap) (free blocks : List Region) (choice : Option (ℕ × List Region))
    → needed_for size ≡ w
    → 8 ≤ w
    → Has s free blocks
    → length free < fuel
    → Choice w free choice
    → ((p : ℕ) × (rest : List Region) × (t : Heap) × (choice ≡ some (p, rest))
        × (alloc fuel size s ≡ ok (p + 8) t)
        × Has t rest ((p, w) ∷ blocks))
      ⊎ ((choice ≡ none) × (alloc fuel size s ≡ halted s))
unfolding alloc
alloc-Choice fuel size w s free blocks _ needed least h enough (refused small) =
    let run = find_free-none fuel w s s.free_head 0 free enough small h.free_chain in
    inr (refl, rw (needed, run) refl)
alloc-Choice fuel size w s free blocks _ needed least h enough (chosen xs p n ys small room e) =
    let h' = subst (λ free. Has s free blocks) e h in
    let passed : length xs < fuel = omega (arith, length-append xs ((p, n) ∷ ys), ap length e) in
    inl (
      p,
      xs ++ (p + w, n - w) ∷ ys,
      split w p (last_or 0 xs) s,
      refl,
      alloc-hit fuel size w s xs p n ys blocks needed least room small passed h',
      split-Has s p n w xs ys blocks least room h',
    )

-- For fewer than 2 ^ 32 - 11 bytes, on a heap whose regions do not meet, where every free region that is
-- big enough has 8 bytes to spare, and with more rounds than there are free regions, `MM_Alloc` is
-- first fit. It returns the address behind the header of the block that first fit cuts off, which is
-- then the first of the blocks, and no two regions meet; or it halts the machine with the heap as it
-- was, if no region is big enough.
pub alloc-first_fit :
    (fuel size : ℕ) (s : Heap) (free blocks : List Region)
    → size + 11 < 2 ^ 32
    → Has s free blocks
    → Roomy ((size + 11) / 4 * 4) free
    → length free < fuel
    → ((p : ℕ) × (rest : List Region) × (t : Heap) × (first_fit ((size + 11) / 4 * 4) free
          ≡ some (p, rest))
        × (alloc fuel size s ≡ ok (p + 8) t)
        × Has t rest ((p, (size + 11) / 4 * 4) ∷ blocks))
      ⊎ ((first_fit ((size + 11) / 4 * 4) free ≡ none) × (alloc fuel size s ≡ halted s))
alloc-first_fit fuel size s free blocks bound h roomy enough =
    let w = (size + 11) / 4 * 4 in
    alloc-Choice fuel size w s free blocks (first_fit w free) (needed_for-eq size bound)
      (omega arith) h enough (first_fit-Choice w free roomy)
