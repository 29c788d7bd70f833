-- ===== src/Mm/Heap/Stale.antt =====
-- `MM_Coalesce` of src/mm_allocator.c, started behind the first free region, as `MM_Free` does.
use valeo.Base.{
  ℕ, suc, ◌+◌, ◌%◌, ◌^◌, ◌<◌, ◌≡◌, ap, sym, ◌∙◌, subst, arith, List, [], ◌∷◌, ◌++◌, length, true,
  false, ◌==◌,
}
use valeo.Base.Run.{ok, update}
use valeo.Mm.Heap.{Heap, u32, set_size, merge, coalesce}
use valeo.Mm.Heap.Chain.{
  Region, Fits, Seg, Beside, Apart, Separate, Apart-Avoid, Seg-update, Seg-at, Has,
}
use valeo.Mm.Heap.Split.{Apart-append, Separate-left}
use valeo.Mm.Heap.Spaced.{Spaced, merge-Spaced}

-- Another size for a region of a chain.
Seg-resize :
    (m : ℕ → ℕ) (a : ℕ) (xs : List Region) (e l q k k' : ℕ) (ys : List Region) (b : ℕ)
    → Separate (xs ++ (e, l) ∷ (q, k) ∷ ys)
    → Fits q k'
    → Seg m a (xs ++ (e, l) ∷ (q, k) ∷ ys) b
    → Seg (update m q k') a (xs ++ (e, l) ∷ (q, k') ∷ ys) b
Seg-resize m a [] e l q k k' ys b ((beside, apart_e), (apart_q, separate)) fits'
      (here, fits, size, (q_here, q_fits, q_size, seg)) =
    let m' = update m q k' in
    let link : m' (e + 4) ≡ m (e + 4) = ground arith in
    let link' : m' (q + 4) ≡ m (q + 4) = ground arith in
    let rest : Seg m' (m' (q + 4)) ys b =
      subst (λ x. Seg m' x ys b) (sym link')
        (Seg-update m q k' (m (q + 4)) ys b
          (Apart-Avoid q k q ys apart_q (omega arith) (omega arith)) seg) in
    (here, fits, ground arith, (link ∙ q_here, fits', ground arith, rest))
Seg-resize m a ((r, j) ∷ xs) e l q k k' ys b (apart, separate) fits' (here, fits, size, seg) =
    let m' = update m q k' in
    let (before, (beside_e, (beside, behind))) = Apart-append r j xs ((e, l) ∷ (q, k) ∷ ys) apart in
    let link : m' (r + 4) ≡ m (r + 4) = ground arith in
    (
      here,
      fits,
      ground arith,
      subst (λ x. Seg m' x (xs ++ (e, l) ∷ (q, k') ∷ ys) b) (sym link)
          (Seg-resize m (m (r + 4)) xs e l q k k' ys b separate fits' seg),
    )

-- A free region that is not the first, and the next one, which reaches up to it.
module _ (s : Heap) (r j : ℕ) (xs : List Region) (e l q k : ℕ) (ys blocks : List Region)
    (h : Has s (((r, j) ∷ xs) ++ (e, l) ∷ (q, k) ∷ ys) blocks) (meets : q + k ≡ e) where
  grown : Heap
  grown = set_size q (k + l) s

  first-Apart : Apart r j (xs ++ (e, l) ∷ (q, k) ∷ ys)
  first-Apart = (Separate-left (((r, j) ∷ xs) ++ (e, l) ∷ (q, k) ∷ ys) blocks h.separate).0

  grown-chain : Seg grown.mem grown.free_head (((r, j) ∷ xs) ++ (e, l) ∷ (q, k + l) ∷ ys) 0
  unfolding grown
  grown-chain =
      let (front, e_fits, e_size, (q_here, q_fits, q_size, back)) =
        Seg-at s.mem s.free_head ((r, j) ∷ xs) e l ((q, k) ∷ ys) 0 h.free_chain in
      Seg-resize s.mem s.free_head ((r, j) ∷ xs) e l q k (k + l) ys 0
        (Separate-left (((r, j) ∷ xs) ++ (e, l) ∷ (q, k) ∷ ys) blocks h.separate)
        (q_fits.0, omega arith) h.free_chain

  merge-first : (fuel : ℕ) → merge (suc fuel) e q 0 s ≡ merge fuel q (grown.mem (q + 4)) 0 grown
  unfolding merge grown
  merge-first fuel =
      let (front, e_fits, e_size, (q_here, q_fits, q_size, back)) =
        Seg-at s.mem s.free_head ((r, j) ∷ xs) e l ((q, k) ∷ ys) 0 h.free_chain in
      let (before, (beside, behind)) = Apart-append r j xs ((e, l) ∷ (q, k) ∷ ys) first-Apart in
      let first : s.free_head ≡ r = h.free_chain.0 in
      let not_null : (q == 0) ≡ false = ground arith in
      let adjacent : (e == u32 (q + s.mem q)) ≡ true = rw q_size (ground arith) in
      let not_head : (e == s.free_head) ≡ false = ground (arith, first, beside) in
      let sum : u32 (s.mem q + s.mem e) ≡ k + l = rw (q_size, e_size) (omega arith) in
      let link : (q + 4) % 2 ^ 32 ≡ q + 4 = omega arith in
      rw (not_null, adjacent, not_head, sum) (ap (λ x. merge fuel q (grown.mem x) 0 grown) link)

  coalesce-run : (fuel : ℕ) → Spaced q ys → length ys < fuel → coalesce (suc fuel) e s ≡ ok tt grown
  unfolding coalesce
  coalesce-run fuel spaced enough =
      let (front, e_fits, e_size, (q_here, q_fits, q_size, back)) =
        Seg-at s.mem s.free_head ((r, j) ∷ xs) e l ((q, k) ∷ ys) 0 h.free_chain in
      let (front', e_fits', e_size', (q_here', q_fits', q_size', back')) =
        Seg-at grown.mem grown.free_head ((r, j) ∷ xs) e l ((q, k + l) ∷ ys) 0 grown-chain in
      let some_place : (e == 0) ≡ false = ground arith in
      let link : (e + 4) % 2 ^ 32 ≡ e + 4 = omega arith in
      rw some_place (
        ap (λ x. merge (suc fuel) e (s.mem x) 0 s) link
        ∙ ap (λ x. merge (suc fuel) e x 0 s) q_here
        ∙ merge-first fuel
        ∙ merge-Spaced fuel q 0 grown ys spaced back' (omega arith) enough)

-- On a heap whose regions do not meet, let `e` be a free region that is not the first and not empty, and let the next
-- one, at `q`, reach up to it, with no adjacent regions below. With more rounds than there are regions
-- below, `MM_Coalesce` from `e` returns, and the region at `q` has taken in the bytes of `e`; but `e`
-- is still in the chain with its size, so that two free regions meet.
pub coalesce-stale :
    (fuel : ℕ) (s : Heap) (r j : ℕ) (xs : List Region) (e l q k : ℕ) (ys blocks : List Region)
    → Has s (((r, j) ∷ xs) ++ (e, l) ∷ (q, k) ∷ ys) blocks
    → 0 < l
    → q + k ≡ e
    → Spaced q ys
    → length ys < fuel
    → (t : Heap) × (coalesce (suc fuel) e s ≡ ok tt t)
      × Seg t.mem t.free_head (((r, j) ∷ xs) ++ (e, l) ∷ (q, k + l) ∷ ys) 0
      × ¬ Beside e l q (k + l)
coalesce-stale fuel s r j xs e l q k ys blocks h some_byte meets spaced enough = (
  grown s r j xs e l q k ys blocks h meets,
  coalesce-run s r j xs e l q k ys blocks h meets fuel spaced enough,
  grown-chain s r j xs e l q k ys blocks h meets,
  λ beside. ground arith,
)
