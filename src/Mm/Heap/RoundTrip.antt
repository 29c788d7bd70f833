-- ===== src/Mm/Heap/RoundTrip.antt =====
-- `MM_Free` of src/mm_allocator.c takes back what `MM_Alloc` has cut off the first free region.
use valeo.Base.{
  ℕ, suc, ◌+◌, ◌-◌, ◌*◌, ◌/◌, ◌%◌, ◌^◌, ◌≤◌, ◌<◌, ◌≡◌, refl, ap, sym, ◌∙◌, subst, arith, List, [],
  ◌∷◌, length, true, false, ◌==◌, ltb, Bool-cases, inl, inr,
}
use valeo.Base.Run.{ok, update}
use valeo.Mm.Heap.{
  alloc, split, Heap, u32, next_at, find_alloc, find_place, merge, coalesce, unlink, link, free,
}
use valeo.Mm.Heap.Chain.{Region, Seg, Apart, Apart-Avoid, Seg-update, Has}
use valeo.Mm.Heap.Carve.{split-Has}
use valeo.Mm.Heap.Fresh.{needed_for-eq}
use valeo.Mm.Heap.FirstFit.{alloc-hit}
use valeo.Mm.Heap.Spaced.{Spaced, merge-Spaced, some-next, next-below}
use valeo.Mm.Heap.Split.{Apart-join, Separate-mid, Apart-union, Apart-append}

-- The words behind `MM_Free`, where the next free region is at `x`.
abbrev freed : (m : ℕ → ℕ) (p w k x : ℕ) → ℕ → ℕ
freed m p w k x = update (update (update m (p + 4) x) (p + w + 4) p) p (w + k)

freed-Seg :
    (m : ℕ → ℕ) (p w k x a : ℕ) (rs : List Region) (b : ℕ)
    → Apart p w rs
    → Apart (p + w) k rs
    → Seg m a rs b
    → Seg (freed m p w k x) a rs b
freed-Seg m p w k x a rs b low high seg =
    let m1 = update m (p + 4) x in
    let m2 = update m1 (p + w + 4) p in
    Seg-update m2 p (w + k) a rs b (Apart-Avoid p w p rs low (omega arith) (omega arith)) (
      Seg-update m1 (p + w + 4) p a rs b
        (Apart-Avoid (p + w) k (p + w + 4) rs high (omega arith) (omega arith))
        (Seg-update m (p + 4) x a rs b (Apart-Avoid p w (p + 4) rs low (omega arith) (omega arith))
          seg))

-- The first block and the free region behind it.
module _ (s : Heap) (p w k : ℕ) (ys zs : List Region) (least : 8 ≤ w)
    (h : Has s ((p + w, k) ∷ ys) ((p, w) ∷ zs)) where
  -- The next free region, and the heap behind `MM_Free`.
  abbrev next_free : ℕ
  next_free = s.mem (p + w + 4)

  after_free : Heap
  after_free = record s {
    mem = freed s.mem p w k next_free;
    free_head = p;
    alloc_head = s.mem (p + 4);
  }

  after_free-Has : Has after_free ((p, w + k) ∷ ys) zs
  unfolding after_free
  after_free-Has =
      let (r_here, r_fits, r_size, back) = h.free_chain in
      let (p_here, p_fits, p_size, blocks) = h.block_chain in
      let (first, separate) = h.separate in
      let (p_ys, p_zs, rest) = Separate-mid p w ys zs separate in
      let (r_ys, (beside, r_zs)) = Apart-append (p + w) k ys ((p, w) ∷ zs) first in
      let m' = freed s.mem p w k next_free in
      let size : m' p ≡ w + k = ground arith in
      let link : m' (p + 4) ≡ next_free = ground arith in
      record {
        free_chain = (
          refl,
          (p_fits.0, omega arith),
          size,
          subst (λ a. Seg m' a ys 0) (sym link)
              (freed-Seg s.mem p w k next_free next_free ys 0 p_ys r_ys back),
        );
        block_chain = freed-Seg s.mem p w k next_free (s.mem (p + 4)) zs 0 p_zs r_zs blocks;
        separate = (
          Apart-join p (w + k) ys zs (Apart-union p w k ys least p_ys r_ys)
              (Apart-union p w k zs least p_zs r_zs),
          rest,
        );
      }

  unlinked : Heap
  unlinked = record s { alloc_head = s.mem (p + 4) }

  relinked : Heap
  relinked = record s {
    mem = update (update s.mem (p + 4) next_free) (p + w + 4) p;
    alloc_head = s.mem (p + 4);
  }

  find_alloc-first :
      (fuel : ℕ) → find_alloc (suc fuel) (u32 (p + 8 + 2 ^ 32 - 8)) s.alloc_head 0 s ≡ ok (p, 0) s
  unfolding find_alloc
  find_alloc-first fuel =
      let (p_here, p_fits, p_size, blocks) = h.block_chain in
      let same : (p == u32 (p + 8 + 2 ^ 32 - 8)) ≡ true = ground arith in rw (p_here, same) refl

  unlink-first : unlink p 0 s ≡ unlinked
  unfolding unlink unlinked
  unlink-first =
      let (p_here, p_fits, p_size, blocks) = h.block_chain in
      let link : (p + 4) % 2 ^ 32 ≡ p + 4 = omega arith in
      ap (λ k. record s { alloc_head = s.mem k }) link

  find_place-first :
      (fuel : ℕ)
      → Spaced p ys
      → find_place (suc (suc fuel)) p s.free_head 0 unlinked ≡ ok (next_free, p + w) unlinked
  unfolding find_place unlinked
  find_place-first fuel spaced =
      let (r_here, r_fits, r_size, back) = h.free_chain in
      let above : ltb p (p + w) ≡ true = ground arith in
      let link : (p + w + 4) % 2 ^ 32 ≡ p + w + 4 = omega arith in
      let below : ltb p next_free ≡ false =
        ground (arith, next-below s.mem next_free p ys h.block_chain.1.0 spaced back) in
      rw (r_here, above, link, below) refl

  link-first : link p next_free (p + w) unlinked ≡ ok tt relinked
  unfolding link unlinked relinked
  link-first =
      let (p_here, p_fits, p_size, blocks) = h.block_chain in
      let (r_here, r_fits, r_size, back) = h.free_chain in
      let p_link : (p + 4) % 2 ^ 32 ≡ p + 4 = omega arith in
      let r_link : (p + w + 4) % 2 ^ 32 ≡ p + w + 4 = omega arith in
      let some_place : (p + w == 0) ≡ false = ground arith in
      elim (Bool-cases (next_free == 0)) [
        | inl last ↦
            let null : next_free ≡ 0 = ground arith in
            rw (some_place, last, p_link, r_link, null) refl
        | inr more ↦ rw (some_place, more, p_link, r_link) refl
      ]

  merge-first :
      (fuel : ℕ)
      → merge (suc fuel) (p + w) p 0 relinked ≡ merge fuel p (after_free.mem (p + 4)) 0 after_free
  unfolding merge relinked after_free
  merge-first fuel =
      let (p_here, p_fits, p_size, blocks) = h.block_chain in
      let (r_here, r_fits, r_size, back) = h.free_chain in
      let p_kept : relinked.mem p ≡ w = ground arith in
      let r_kept : relinked.mem (p + w) ≡ k = ground arith in
      let not_null : (p == 0) ≡ false = ground arith in
      let meets : (p + w == u32 (p + relinked.mem p)) ≡ true = rw p_kept (ground arith) in
      let is_head : (p + w == s.free_head) ≡ true = ground arith in
      let sum : u32 (relinked.mem p + relinked.mem (p + w)) ≡ w + k =
        rw (p_kept, r_kept) (omega arith) in
      let link : (p + 4) % 2 ^ 32 ≡ p + 4 = omega arith in
      rw (not_null, meets, is_head, sum)
        (ap (λ x. merge fuel p (after_free.mem x) 0 after_free) link)

  coalesce-first :
      (fuel : ℕ)
      → Spaced p ys
      → length ys < suc fuel
      → coalesce (suc (suc fuel)) (p + w) relinked ≡ ok tt after_free
  unfolding coalesce relinked after_free
  coalesce-first fuel spaced enough =
      let (p_here, p_fits, p_size, blocks) = h.block_chain in
      let (r_here, r_fits, r_size, back) = h.free_chain in
      let some_place : (p + w == 0) ≡ false = ground arith in
      let p_link : (p + 4) % 2 ^ 32 ≡ p + 4 = omega arith in
      let r_link : (p + w + 4) % 2 ^ 32 ≡ p + w + 4 = omega arith in
      let to_p : relinked.mem (p + w + 4) ≡ p = ground arith in
      let rest =
        merge-Spaced (suc fuel) p 0 after_free ys spaced after_free-Has.free_chain.3 (omega arith)
          enough in
      rw (some_place) (
        ap (λ k. merge (suc (suc fuel)) (p + w) (relinked.mem k) 0 relinked) r_link
        ∙ ap (λ x. merge (suc (suc fuel)) (p + w) x 0 relinked) to_p
        ∙ merge-first (suc fuel)
        ∙ rest)

  free-run :
      (fuel : ℕ)
      → Spaced p ys
      → 0 < length zs
      → length ys < suc fuel
      → free (suc (suc fuel)) (p + 8) s ≡ ok tt after_free
  unfolding free unlinked after_free
  free-run fuel spaced some_block enough =
      let (p_here, p_fits, p_size, blocks) = h.block_chain in
      let link : (p + 4) % 2 ^ 32 ≡ p + 4 = omega arith in
      let next : next_at s p ≡ s.mem (p + 4) = ap s.mem link in
      let not_null : (next_at s p == 0) ≡ false =
        ground (arith, next, some-next s.mem (s.mem (p + 4)) zs some_block blocks) in
      rw
        (
          find_alloc-first (suc fuel),
          not_null,
          unlink-first,
          find_place-first fuel spaced,
          link-first,
        )
        (coalesce-first fuel spaced enough)

-- Fewer than 2 ^ 32 - 11 bytes are allocated from a first free region that is big enough with 8 bytes to
-- spare, and freed at once. The heap has a block already, its free regions run downwards and are not
-- adjacent, no two regions meet, and there are more rounds than free regions. Then both calls return,
-- and the heap has the regions and blocks that it had.
pub free-alloc :
    (fuel size p n : ℕ) (s : Heap) (ys blocks : List Region)
    → size + 11 < 2 ^ 32
    → (size + 11) / 4 * 4 + 8 ≤ n
    → Has s ((p, n) ∷ ys) blocks
    → 0 < length blocks
    → Spaced p ys
    → length ys < suc fuel
    → (t : Heap) × (u : Heap) × (alloc (suc fuel) size s ≡ ok (p + 8) t)
      × (free (suc (suc fuel)) (p + 8) t ≡ ok tt u)
      × Has u ((p, n) ∷ ys) blocks
free-alloc fuel size p n s ys blocks bound room h some_block spaced enough =
    let w = (size + 11) / 4 * 4 in
    let t = split w p 0 s in
    let least : 8 ≤ w = omega arith in
    let carved = split-Has s p n w [] ys blocks least room h in
    let whole : w + (n - w) ≡ n = omega arith in
    (
      t,
      after_free t p w (n - w) ys blocks least carved,
      alloc-hit (suc fuel) size w s [] p n ys blocks (needed_for-eq size bound) least room tt
          (omega arith) h,
      free-run t p w (n - w) ys blocks least carved fuel spaced some_block enough,
      subst (λ k. Has (after_free t p w (n - w) ys blocks least carved) ((p, k) ∷ ys) blocks) whole
          (after_free-Has t p w (n - w) ys blocks least carved),
    )
