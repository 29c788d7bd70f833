-- ===== src/Mm/Heap/Release.antt =====
-- `MM_Free` of src/mm_allocator.c takes a block from anywhere in its chain to its place among the free
-- regions.
use valeo.Base.{
  ℕ, zero, suc, ◌+◌, ◌%◌, ◌^◌, ◌≤◌, ◌<◌, ◌≡◌, refl, ap, sym, ◌∙◌, subst, arith, List, [], ◌∷◌, ◌++◌,
  length, true, false, ◌==◌, ◌||◌, ltb,
}
use valeo.Base.Run.{ok, update}
use valeo.Mm.Heap.{Heap, next_at, find_alloc, find_place, unlink}
use valeo.Mm.Heap.Chain.{
  Region, Seg, Apart, Separate, Seg-update, Seg-append, Seg-relink, Seg-at, last_or, last-Avoid,
  last-Fits, Has,
}
use valeo.Mm.Heap.Spaced.{Spaced, next-below}
use valeo.Mm.Heap.Split.{
  Apart-join, Apart-append, Avoid-append, Separate-mid, Separate-left, Separate-insert,
}

Apart-swap : (p n : ℕ) (xs ys : List Region) → Apart p n (xs ++ ys) → Apart p n (ys ++ xs)
Apart-swap p n xs ys apart =
    let (left, right) = Apart-append p n xs ys apart in Apart-join p n ys xs right left

Separate-nil : (ys : List Region) → Separate ys → Separate (ys ++ [])
Separate-nil [] separate = tt
Separate-nil ((q, l) ∷ ys) (apart, separate) =
    (Apart-join q l ys [] apart tt, Separate-nil ys separate)

Separate-swap : (xs ys : List Region) → Separate (xs ++ ys) → Separate (ys ++ xs)
Separate-swap [] ys separate = Separate-nil ys separate
Separate-swap ((q, l) ∷ xs) ys (apart, separate) =
    Separate-insert q l ys xs (Apart-swap q l xs ys apart) (Separate-swap xs ys separate)

-- A block is taken out of the second list.
pub Separate-without :
    (p w : ℕ) (xs bs zs : List Region)
    → Separate (xs ++ (bs ++ (p, w) ∷ zs))
    → Apart p w xs × Apart p w (bs ++ zs) × Separate (xs ++ (bs ++ zs))
Separate-without p w [] bs zs separate =
    let (left, right, rest) = Separate-mid p w bs zs separate in
    (tt, Apart-join p w bs zs left right, rest)
Separate-without p w ((q, l) ∷ xs) bs zs (first, separate) =
    let (before, behind, rest) = Separate-without p w xs bs zs separate in
    let (front, back) = Apart-append q l xs (bs ++ (p, w) ∷ zs) first in
    let (left, (beside, right)) = Apart-append q l bs ((p, w) ∷ zs) back in
    (
      (ground arith, before),
      behind,
      (Apart-join q l xs (bs ++ zs) front (Apart-join q l bs zs left right), rest),
    )

-- It is put into the first one.
pub Separate-with :
    (p w : ℕ) (xs ys zs : List Region)
    → Apart p w (xs ++ ys)
    → Apart p w zs
    → Separate ((xs ++ ys) ++ zs)
    → Separate ((xs ++ (p, w) ∷ ys) ++ zs)
Separate-with p w [] ys zs apart apart' separate = (Apart-join p w ys zs apart apart', separate)
Separate-with p w ((q, l) ∷ xs) ys zs (beside, apart) apart' (first, separate) =
    let (front, right) = Apart-append q l (xs ++ ys) zs first in
    let (left, middle) = Apart-append q l xs ys front in
    (
      Apart-join q l (xs ++ (p, w) ∷ ys) zs
          (Apart-join q l xs ((p, w) ∷ ys) left (ground arith, middle)) right,
      Separate-with p w xs ys zs apart apart' separate,
    )

pub last-pos :
    (m : ℕ → ℕ) (a q l : ℕ) (xs : List Region) (b : ℕ) → Seg m a ((q, l) ∷ xs) b → 0 < last_or q xs
last-pos m a q l [] b (here, fits, size, seg) = fits.0
last-pos m a q l ((q', l') ∷ xs) b (here, fits, size, seg) = last-pos m (m (q + 4)) q' l' xs b seg

pub last-room :
    (m : ℕ → ℕ) (a q l : ℕ) (xs : List Region) (b : ℕ)
    → Seg m a ((q, l) ∷ xs) b
    → last_or q xs + 8 ≤ 2 ^ 32
last-room m a q l [] b (here, fits, size, seg) = omega arith
last-room m a q l ((q', l') ∷ xs) b (here, fits, size, seg) = last-room m (m (q + 4)) q' l' xs b seg

pub last-link :
    (m : ℕ → ℕ) (a q l : ℕ) (xs : List Region) (b : ℕ)
    → Seg m a ((q, l) ∷ xs) b
    → m (last_or q xs + 4) ≡ b
last-link m a q l [] b (here, fits, size, seg) = seg
last-link m a q l ((q', l') ∷ xs) b (here, fits, size, seg) = last-link m (m (q + 4)) q' l' xs b seg

pub some-front :
    (m : ℕ → ℕ) (a p w : ℕ) (bs zs : List Region) (b : ℕ) → Seg m a (bs ++ (p, w) ∷ zs) b → 0 < a
some-front m a p w [] zs b (here, fits, size, seg) = omega arith
some-front m a p w ((q, l) ∷ bs) zs b (here, fits, size, seg) = omega arith

pub find_alloc-at :
    (fuel entry previous p w : ℕ) (s : Heap) (bs zs : List Region)
    → Seg s.mem entry (bs ++ (p, w) ∷ zs) 0
    → Apart p w bs
    → length bs < fuel
    → find_alloc fuel p entry previous s ≡ ok (p, last_or previous bs) s
unfolding find_alloc
find_alloc-at zero entry previous p w s bs zs seg apart enough = absurd (omega arith)
find_alloc-at (suc fuel) entry previous p w s [] zs (here, fits, size, seg) apart enough =
    let same : (p == p || next_at s p == 0) ≡ true = ground arith in rw (here, same) refl
find_alloc-at (suc fuel) entry previous p w s ((b, c) ∷ bs) zs (here, fits, size, seg)
      (beside, apart) enough =
    let link : (b + 4) % 2 ^ 32 ≡ b + 4 = omega arith in
    let some_more : 0 < s.mem (b + 4) = some-front s.mem (s.mem (b + 4)) p w bs zs 0 seg in
    let next : next_at s b ≡ s.mem (b + 4) = ap s.mem link in
    let other : (b == p || next_at s b == 0) ≡ false = ground (arith, next) in
    rw (here, other)
      (ap (λ k. find_alloc fuel p (s.mem k) b s) link
        ∙ find_alloc-at fuel (s.mem (b + 4)) b p w s bs zs seg apart (omega arith))

-- The regions lie above an address.
abbrev pub Above : ℕ → List Region → Type 0
Above p [] = Unit {0}
Above p ((q, l) ∷ rs) = (p < q) × Above p rs

abbrev pub head_of : List Region → ℕ
head_of [] = 0
head_of ((q, l) ∷ rs) = q

pub head-Seg : (m : ℕ → ℕ) (a : ℕ) (rs : List Region) → Seg m a rs 0 → a ≡ head_of rs
head-Seg m a [] seg = seg
head-Seg m a ((q, l) ∷ rs) (here, fits, size, seg) = here

pub find_place-at :
    (fuel entry previous p : ℕ) (s : Heap) (xs ys : List Region)
    → Seg s.mem entry (xs ++ ys) 0
    → Above p xs
    → Spaced p ys
    → 0 < p
    → length xs < fuel
    → find_place fuel p entry previous s ≡ ok (head_of ys, last_or previous xs) s
unfolding find_place
find_place-at zero entry previous p s xs ys seg above spaced there enough = absurd (omega arith)
find_place-at (suc fuel) entry previous p s [] ys seg above spaced there enough =
    let below : ltb p entry ≡ false =
      ground (arith, next-below s.mem entry p ys there spaced seg) in
    rw below (ap (λ a. ok (a, previous) s) (head-Seg s.mem entry ys seg))
find_place-at (suc fuel) entry previous p s ((q, l) ∷ xs) ys (here, fits, size, seg) (higher, above)
      spaced there enough =
    let link : (q + 4) % 2 ^ 32 ≡ q + 4 = omega arith in
    let goes_on : ltb p q ≡ true = ground arith in
    rw (here, goes_on)
      (ap (λ k. find_place fuel p (s.mem k) q s) link
        ∙ find_place-at fuel (s.mem (q + 4)) q p s xs ys seg above spaced there (omega arith))

-- The block has left the chain of blocks, and its header is still there.
pub record Unlinked (p w : ℕ) (frees bs zs : List Region) (s t : Heap) : Type 0 where
  pub free_chain : Seg t.mem t.free_head frees 0
  pub block_chain : Seg t.mem t.alloc_head (bs ++ zs) 0
  pub size : t.mem p ≡ w

pub unlink-Unlinked :
    (p w : ℕ) (frees bs zs : List Region) (s : Heap)
    → Has s frees (bs ++ (p, w) ∷ zs)
    → Unlinked p w frees bs zs s (unlink p (last_or 0 bs) s)
unfolding unlink
unlink-Unlinked p w frees [] zs s h =
    let (here, fits, size, seg) = h.block_chain in
    let link : (p + 4) % 2 ^ 32 ≡ p + 4 = omega arith in
    record {
      free_chain = h.free_chain;
      block_chain = subst (λ k. Seg s.mem (s.mem k) zs 0) (sym link) seg;
      size = size;
    }
unlink-Unlinked p w frees ((b, c) ∷ bs) zs s h =
    let k = last_or b bs + 4 in
    let (front, fits, size, back) =
      Seg-at s.mem s.alloc_head ((b, c) ∷ bs) p w zs 0 h.block_chain in
    let not_null : (last_or b bs == 0) ≡ false =
      ground (arith, last-pos s.mem s.alloc_head b c bs p front) in
    let place : k % 2 ^ 32 ≡ k = omega (arith, last-Fits s.mem s.alloc_head b c bs p front) in
    let link : (p + 4) % 2 ^ 32 ≡ p + 4 = omega arith in
    let turned = Separate-swap frees (((b, c) ∷ bs) ++ (p, w) ∷ zs) h.separate in
    let ((not_size, not_next), avoid) = last-Avoid b c bs ((p, w) ∷ zs) frees turned in
    let (in_zs, in_free) = Avoid-append k zs frees avoid in
    let x = s.mem (p + 4) in
    let only_blocks =
      Separate-left ((b, c) ∷ bs) ((p, w) ∷ zs)
        (Separate-left (((b, c) ∷ bs) ++ (p, w) ∷ zs) frees turned) in
    let same : update s.mem k x p ≡ s.mem p = ground arith in
    rw (not_null, place)
      (subst
        (λ j. Unlinked p w frees ((b, c) ∷ bs) zs s (record s { mem = update s.mem k (s.mem j) }))
        (sym link)
        (record {
          free_chain = Seg-update s.mem k x s.free_head frees 0 in_free h.free_chain;
          block_chain =
              Seg-append (update s.mem k x) s.alloc_head ((b, c) ∷ bs) x zs 0
                (Seg-relink s.mem s.alloc_head b c bs p x only_blocks front)
                (Seg-update s.mem k x x zs 0 in_zs back);
          size = same ∙ size;
        }))
