-- ===== src/Mm/Heap/Carve.antt =====
-- `split` of src/mm_allocator.c keeps the heap well formed.
use valeo.Base.{
  ℕ, ◌+◌, ◌-◌, ◌%◌, ◌^◌, ◌≤◌, ◌<◌, ◌≡◌, ◌≢◌, refl, ap, sym, subst, arith, List, [], ◌∷◌, ◌++◌, true,
  false, ◌==◌,
}
use valeo.Base.Run.{update}
use valeo.Mm.Heap.{Heap, split}
use valeo.Mm.Heap.Chain.{Region, Fits, last_or, Seg-at, last-Fits, Has}
use valeo.Mm.Heap.Split.{Separate-at, split-Separate}
use valeo.Mm.Heap.Half.{Half, sized, linked, linked-Half, sized-chains, relinked-Half}

module _ (s : Heap) (p n w prev : ℕ) (least : 8 ≤ w) (room : w + 8 ≤ n) (fits : Fits p n)
    (size : s.mem p ≡ n) where
  -- The heap behind `split`, from the words in which the link has been set.
  after_split : (m : ℕ → ℕ) (free : ℕ) → Heap
  after_split m free = record s {
    mem = linked m s.alloc_head p w;
    free_head = free;
    alloc_head = p;
  }

  -- The same, but for the place that the link is read from.
  abbrev read_from : (m : ℕ → ℕ) (free k : ℕ) → Heap
  read_from m free k = record s {
    mem = update (update (update m (p + w + 4) (m k)) p w) (p + 4) s.alloc_head;
    free_head = free;
    alloc_head = p;
  }

  split-first : s.free_head ≡ p → split w p prev s ≡ after_split (sized s.mem p n w) (p + w)
  unfolding split after_split
  split-first first =
      let new : (p + w) % 2 ^ 32 ≡ p + w = omega arith in
      let new_link : (p + w + 4) % 2 ^ 32 ≡ p + w + 4 = omega arith in
      let link : (p + 4) % 2 ^ 32 ≡ p + 4 = omega arith in
      let rest : (s.mem p + 2 ^ 32 - w) % 2 ^ 32 ≡ n - w = omega arith in
      let head : (s.free_head == p) ≡ true = ground arith in
      rw (new, new_link, link, rest, head) (ap (read_from (sized s.mem p n w) (p + w)) link)

  split-later :
      s.free_head ≢ p
      → prev + 4 < 2 ^ 32
      → split w p prev s ≡ after_split (update (sized s.mem p n w) (prev + 4) (p + w)) s.free_head
  unfolding split after_split
  split-later later in_space =
      let new : (p + w) % 2 ^ 32 ≡ p + w = omega arith in
      let new_link : (p + w + 4) % 2 ^ 32 ≡ p + w + 4 = omega arith in
      let link : (p + 4) % 2 ^ 32 ≡ p + 4 = omega arith in
      let rest : (s.mem p + 2 ^ 32 - w) % 2 ^ 32 ≡ n - w = omega arith in
      let before : (prev + 4) % 2 ^ 32 ≡ prev + 4 = omega arith in
      let head : (s.free_head == p) ≡ false = ground arith in
      rw (new, new_link, link, rest, head, before)
        (ap (read_from (update (sized s.mem p n w) (prev + 4) (p + w)) s.free_head) link)

-- Behind `split`, the two parts are in their chains.
pub split-Has :
    (s : Heap) (p n w : ℕ) (xs ys zs : List Region)
    → 8 ≤ w
    → w + 8 ≤ n
    → Has s (xs ++ (p, n) ∷ ys) zs
    → Has (split w p (last_or 0 xs) s) (xs ++ (p + w, n - w) ∷ ys) ((p, w) ∷ zs)
unfolding after_split
split-Has s p n w [] ys zs least room h =
    let (first, fits, size, back) = Seg-at s.mem s.free_head [] p n ys 0 h.free_chain in
    let m1 = sized s.mem p n w in
    let (front', back', blocks') =
      sized-chains s.mem s.free_head s.alloc_head p n w [] ys zs least room fits h.separate first
        back h.block_chain in
    let half : Half m1 (p + w) s.alloc_head p n w [] ys zs = record {
      front = refl;
      back = back';
      allocated = blocks';
      left = ground arith;
    } in
    let (free_chain, block_chain) =
      linked-Half m1 (p + w) s.alloc_head p n w [] ys zs least room fits h.separate half in
    subst (λ t. Has t ((p + w, n - w) ∷ ys) ((p, w) ∷ zs))
      (sym (split-first s p n w 0 least room fits size first))
      (record {
        free_chain = free_chain;
        block_chain = block_chain;
        separate = split-Separate p n w least room ys zs [] h.separate;
      })
split-Has s p n w ((q, l) ∷ xs) ys zs least room h =
    let (front, fits, size, back) = Seg-at s.mem s.free_head ((q, l) ∷ xs) p n ys 0 h.free_chain in
    let k = last_or q xs + 4 in
    let m1 = sized s.mem p n w in
    let m2 = update m1 k (p + w) in
    let (front', back', blocks') =
      sized-chains s.mem s.free_head s.alloc_head p n w ((q, l) ∷ xs) ys zs least room fits
        h.separate front back h.block_chain in
    let half =
      relinked-Half m1 s.free_head s.alloc_head p n w q l xs ys zs least room h.separate
        (ground arith) front' back' blocks' in
    let (free_chain, block_chain) =
      linked-Half m2 s.free_head s.alloc_head p n w ((q, l) ∷ xs) ys zs least room fits h.separate
        half in
    let (beside, apart) = (Separate-at p n ((q, l) ∷ xs) ys zs h.separate).0 in
    let later : ¬ (s.free_head ≡ p) = λ e. ground (arith, front.0, e) in
    subst (λ t. Has t (((q, l) ∷ xs) ++ (p + w, n - w) ∷ ys) ((p, w) ∷ zs))
      (sym (
        split-later s p n w (last_or q xs) least room fits size later
          (last-Fits s.mem s.free_head q l xs p front)))
      (record {
        free_chain = free_chain;
        block_chain = block_chain;
        separate = split-Separate p n w least room ys zs ((q, l) ∷ xs) h.separate;
      })
