-- ===== src/Mm/Heap/Half.antt =====
-- The words that `split` of src/mm_allocator.c writes lead the two chains through both parts of the
-- region.
use valeo.Base.{ℕ, ◌+◌, ◌-◌, ◌≤◌, ◌<◌, ◌≡◌, refl, sym, subst, arith, List, ◌∷◌, ◌++◌}
use valeo.Base.Run.{update}
use valeo.Mm.Heap.Chain.{
  Region, Fits, Seg, Apart, Separate, Apart-Avoid, Seg-update, Seg-append, Seg-relink, last_or,
  last-Avoid,
}
use valeo.Mm.Heap.Split.{Apart-append, Avoid-append, Separate-at, Separate-left, split-Separate}

-- The words of a heap in which the link to the region at `p` leads to its second part at `p + w` already,
-- of `n - w` bytes.
pub record Half (m : ℕ → ℕ) (free blocks p n w : ℕ) (xs ys zs : List Region) : Type 0 where
  pub front : Seg m free xs (p + w)
  pub back : Seg m (m (p + 4)) ys 0
  pub allocated : Seg m blocks zs 0
  pub left : m (p + w) ≡ n - w

-- The first word that is written.
abbrev pub sized : (m : ℕ → ℕ) (p n w : ℕ) → ℕ → ℕ
sized m p n w = update m (p + w) (n - w)

-- The words that are written at the end.
abbrev pub linked : (m : ℕ → ℕ) (blocks p w : ℕ) → ℕ → ℕ
linked m blocks p w = update (update (update m (p + w + 4) (m (p + 4))) p w) (p + 4) blocks

module _ (m : ℕ → ℕ) (free blocks p n w : ℕ) (xs ys zs : List Region) (least : 8 ≤ w)
    (room : w + 8 ≤ n) (fits : Fits p n) (separate : Separate ((xs ++ (p, n) ∷ ys) ++ zs)) where
  before-Apart : Apart p n xs
  before-Apart = (Separate-at p n xs ys zs separate).0

  behind-Apart : Apart p n ys
  behind-Apart = (Apart-append p n ys zs (Separate-at p n xs ys zs separate).1).0

  blocks-Apart : Apart p n zs
  blocks-Apart = (Apart-append p n ys zs (Separate-at p n xs ys zs separate).1).1

  -- A word inside of the region is in no other header.
  inside_word :
      (m' : ℕ → ℕ) (d v a : ℕ) (rs : List Region) (b : ℕ)
      → Apart p n rs
      → d < n
      → Seg m' a rs b
      → Seg (update m' (p + d) v) a rs b
  inside_word m' d v a rs b apart small seg =
      Seg-update m' (p + d) v a rs b (Apart-Avoid p n (p + d) rs apart (omega arith) (omega arith))
        seg

  linked-Seg :
      (a : ℕ) (rs : List Region) (b : ℕ)
      → Apart p n rs
      → Seg m a rs b
      → Seg (linked m blocks p w) a rs b
  linked-Seg a rs b apart seg =
      let behind : p + (w + 4) ≡ p + w + 4 = omega arith in
      let first : p + 0 ≡ p = omega arith in
      let m1 = update m (p + w + 4) (m (p + 4)) in
      let s1 =
        subst (λ k. Seg (update m k (m (p + 4))) a rs b) behind
          (inside_word m (w + 4) (m (p + 4)) a rs b apart (omega arith) seg) in
      let s2 =
        subst (λ k. Seg (update m1 k w) a rs b) first
          (inside_word m1 0 w a rs b apart (omega arith) s1) in
      inside_word (update m1 p w) 4 blocks a rs b apart (omega arith) s2

  -- The two parts in their chains.
  pub linked-Half :
      Half m free blocks p n w xs ys zs
      → Seg (linked m blocks p w) free (xs ++ (p + w, n - w) ∷ ys) 0
        × Seg (linked m blocks p w) p ((p, w) ∷ zs) 0
  linked-Half h =
      let m' = linked m blocks p w in
      let link : m' (p + w + 4) ≡ m (p + 4) = ground arith in
      let left : m' (p + w) ≡ n - w = ground (arith, h.left) in
      let back : Seg m' (m' (p + w + 4)) ys 0 =
        subst (λ a. Seg m' a ys 0) (sym link) (linked-Seg (m (p + 4)) ys 0 behind-Apart h.back) in
      let chain : m' (p + 4) ≡ blocks = ground arith in
      let size : m' p ≡ w = ground arith in
      (
        Seg-append m' free xs (p + w) ((p + w, n - w) ∷ ys) 0
            (linked-Seg free xs (p + w) before-Apart h.front)
            (refl, (omega arith, omega arith), left, back),
        (
          refl,
          (fits.0, omega arith),
          size,
          subst (λ a. Seg m' a zs 0) (sym chain) (linked-Seg blocks zs 0 blocks-Apart h.allocated),
        ),
      )

  sized-Seg :
      (a : ℕ) (rs : List Region) (b : ℕ) → Apart p n rs → Seg m a rs b → Seg (sized m p n w) a rs b
  sized-Seg a rs b apart seg = inside_word m w (n - w) a rs b apart (omega arith) seg

  -- The chains when the first word has been written, with the old link to the region.
  pub sized-chains :
      Seg m free xs p
      → Seg m (m (p + 4)) ys 0
      → Seg m blocks zs 0
      → Seg (sized m p n w) free xs p
        × Seg (sized m p n w) (sized m p n w (p + 4)) ys 0
        × Seg (sized m p n w) blocks zs 0
  sized-chains front back allocated =
      let same : sized m p n w (p + 4) ≡ m (p + 4) = ground arith in
      (
        sized-Seg free xs p before-Apart front,
        subst (λ a. Seg (sized m p n w) a ys 0) (sym same)
            (sized-Seg (m (p + 4)) ys 0 behind-Apart back),
        sized-Seg blocks zs 0 blocks-Apart allocated,
      )

-- The link to the region is in the header of the one in front of it.
pub relinked-Half :
    (m : ℕ → ℕ) (free blocks p n w q l : ℕ) (xs ys zs : List Region)
    → 8 ≤ w
    → w + 8 ≤ n
    → Separate ((((q, l) ∷ xs) ++ (p, n) ∷ ys) ++ zs)
    → m (p + w) ≡ n - w
    → Seg m free ((q, l) ∷ xs) p
    → Seg m (m (p + 4)) ys 0
    → Seg m blocks zs 0
    → Half (update m (last_or q xs + 4) (p + w)) free blocks p n w ((q, l) ∷ xs) ys zs
relinked-Half m free blocks p n w q l xs ys zs least room separate left front back allocated =
    let k = last_or q xs + 4 in
    let m' = update m k (p + w) in
    let parts = split-Separate p n w least room ys zs ((q, l) ∷ xs) separate in
    let ((not_new, not_link), avoid) =
      last-Avoid q l xs ((p + w, n - w) ∷ ys) ((p, w) ∷ zs) parts in
    let (in_ys, ((not_size, not_next), in_zs)) = Avoid-append k ys ((p, w) ∷ zs) avoid in
    let same : m' (p + 4) ≡ m (p + 4) = ground arith in
    record {
      front =
          Seg-relink m free q l xs p (p + w)
            (Separate-left ((q, l) ∷ xs) ((p, n) ∷ ys)
              (Separate-left (((q, l) ∷ xs) ++ (p, n) ∷ ys) zs separate))
            front;
      back =
          subst (λ a. Seg m' a ys 0) (sym same)
            (Seg-update m k (p + w) (m (p + 4)) ys 0 in_ys back);
      allocated = Seg-update m k (p + w) blocks zs 0 in_zs allocated;
      left = ground arith;
    }
