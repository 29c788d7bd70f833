-- ===== src/Mm/Heap/Insert.antt =====
-- `MM_Free` of src/mm_allocator.c, for a block that lies below a free region and meets none.
use valeo.Base.{
  ℕ, ◌+◌, ◌-◌, ◌%◌, ◌^◌, ◌<◌, ◌≡◌, refl, ap, sym, ◌∙◌, subst, arith, List, [], ◌∷◌, ◌++◌, length,
  false, ◌==◌, Bool-cases, inl, inr,
}
use valeo.Base.Run.{ok, update}
use valeo.Mm.Heap.{Heap, u32, next_at, find_alloc, find_place, merge, coalesce, unlink, link, free}
use valeo.Mm.Heap.Chain.{
  Region, Fits, Seg, Apart, Separate, Avoid, Apart-Avoid, Seg-update, Seg-append, Seg-relink,
  Seg-at, last_or, last-Avoid, last-Fits, Has,
}
use valeo.Mm.Heap.Spaced.{Spaced, merge-Spaced, some-next}
use valeo.Mm.Heap.Split.{Apart-append, Avoid-append, Separate-left}
use valeo.Mm.Heap.Release.{
  Separate-without, Separate-with, last-link, last-pos, last-room, find_alloc-at, Above, head_of,
  head-Seg, find_place-at, Unlinked, unlink-Unlinked,
}

Seg-split :
    (m : ℕ → ℕ) (a : ℕ) (xs ys : List Region) (b : ℕ)
    → Seg m a (xs ++ ys) b
    → (c : ℕ) × Seg m a xs c × Seg m c ys b
Seg-split m a [] ys b seg = (a, refl, seg)
Seg-split m a ((q, l) ∷ xs) ys b (here, fits, size, seg) =
    let (c, front, back) = Seg-split m (m (q + 4)) xs ys b seg in
    (c, (here, fits, size, front), back)

-- The words behind the insertion of a region at `p` between those at `e` and `x`.
abbrev inserted : (m : ℕ → ℕ) (p e x : ℕ) → ℕ → ℕ
inserted m p e x = update (update m (p + 4) x) (e + 4) p

abbrev joined : (p e x : ℕ) → Heap → Heap
joined p e x t = record t { mem = inserted t.mem p e x }

link-inserted :
    (p e x : ℕ) (t : Heap)
    → p + 4 < 2 ^ 32
    → e + 4 < 2 ^ 32
    → 0 < e
    → t.mem (e + 4) ≡ x
    → link p x e t ≡ ok tt (joined p e x t)
unfolding link
link-inserted p e x t p_fits e_fits pos next =
    let some_place : (e == 0) ≡ false = ground arith in
    let p_link : (p + 4) % 2 ^ 32 ≡ p + 4 = omega arith in
    let e_link : (e + 4) % 2 ^ 32 ≡ e + 4 = omega arith in
    elim (Bool-cases (x == 0)) [
      | inl last ↦
          let null : x ≡ 0 = ground arith in rw (some_place, last, p_link, e_link, null) refl
      | inr more ↦
          rw (some_place, more, p_link, e_link)
            (ap (λ v. ok tt (record t { mem = update (update t.mem (p + 4) v) (e + 4) p }))
              (ap t.mem e_link ∙ next))
    ]

-- A free region in front, at `r`, and the region that joins.
module _ (p w r j : ℕ) (xs ys blocks : List Region) (t : Heap) (fits : Fits p w)
    (chain : Seg t.mem t.free_head (((r, j) ∷ xs) ++ ys) 0)
    (block_chain : Seg t.mem t.alloc_head blocks 0) (size : t.mem p ≡ w)
    (apart : Apart p w (((r, j) ∷ xs) ++ ys)) (apart' : Apart p w blocks)
    (separate : Separate ((((r, j) ∷ xs) ++ ys) ++ blocks)) where
  abbrev e : ℕ
  e = last_or r xs

  abbrev x : ℕ
  x = head_of ys

  abbrev all_Separate : Separate ((((r, j) ∷ xs) ++ (p, w) ∷ ys) ++ blocks)
  all_Separate = Separate-with p w ((r, j) ∷ xs) ys blocks apart apart' separate

  joined-Seg :
      (a : ℕ) (rs : List Region) (b : ℕ)
      → Apart p w rs
      → Avoid (e + 4) rs
      → Seg t.mem a rs b
      → Seg (joined p e x t).mem a rs b
  joined-Seg a rs b apart avoid seg = Seg-update (update t.mem (p + 4) x) (e + 4) p a rs b avoid (
      Seg-update t.mem (p + 4) x a rs b
        (Apart-Avoid p w (p + 4) rs apart (omega arith) (omega arith)) seg)

  joined-Has : Has (joined p e x t) (((r, j) ∷ xs) ++ (p, w) ∷ ys) blocks
  joined-Has =
      let (c, front, back) = Seg-split t.mem t.free_head ((r, j) ∷ xs) ys 0 chain in
      let ((not_size, not_next), avoid) = last-Avoid r j xs ((p, w) ∷ ys) blocks all_Separate in
      let (in_ys, in_blocks) = Avoid-append (e + 4) ys blocks avoid in
      let (left, right) = Apart-append p w ((r, j) ∷ xs) ys apart in
      let m1 = update t.mem (p + 4) x in
      let front' : Seg m1 t.free_head ((r, j) ∷ xs) c =
        Seg-update t.mem (p + 4) x t.free_head ((r, j) ∷ xs) c
          (Apart-Avoid p w (p + 4) ((r, j) ∷ xs) left (omega arith) (omega arith)) front in
      let next : (joined p e x t).mem (p + 4) ≡ x = ground arith in
      let header : (joined p e x t).mem p ≡ t.mem p = ground arith in
      record {
        free_chain =
            Seg-append (joined p e x t).mem t.free_head ((r, j) ∷ xs) p ((p, w) ∷ ys) 0
              (Seg-relink m1 t.free_head r j xs c p
                (Separate-left ((r, j) ∷ xs) ys
                  (Separate-left (((r, j) ∷ xs) ++ ys) blocks separate))
                front')
              (
                refl,
                fits,
                header ∙ size,
                subst (λ a. Seg (joined p e x t).mem a ys 0) (head-Seg t.mem c ys back ∙ sym next)
                    (joined-Seg c ys 0 right in_ys back),
              );
        block_chain = joined-Seg t.alloc_head blocks 0 apart' in_blocks block_chain;
        separate = all_Separate;
      }

-- A block with others behind it in its chain, below the free region at `e` and not adjacent to any.
module _ (p w r j : ℕ) (xs ys bs zs : List Region) (s : Heap)
    (h : Has s (((r, j) ∷ xs) ++ ys) (bs ++ (p, w) ∷ zs)) where
  unlinked : Heap
  unlinked = unlink p (last_or 0 bs) s

  unlinked-Unlinked : Unlinked p w (((r, j) ∷ xs) ++ ys) bs zs s unlinked
  unfolding unlinked
  unlinked-Unlinked = unlink-Unlinked p w (((r, j) ∷ xs) ++ ys) bs zs s h

  block-Fits : Fits p w
  block-Fits = (Seg-at s.mem s.alloc_head bs p w zs 0 h.block_chain).1

  abbrev released : Heap
  released = joined p (last_or r xs) (head_of ys) unlinked

  released-Has : Has released (((r, j) ∷ xs) ++ (p, w) ∷ ys) (bs ++ zs)
  released-Has =
      let u = unlinked-Unlinked in
      let (left, right, separate) = Separate-without p w (((r, j) ∷ xs) ++ ys) bs zs h.separate in
      joined-Has p w r j xs ys (bs ++ zs) unlinked block-Fits u.free_chain u.block_chain u.size left
        right separate

  find-run :
      (fuel : ℕ)
      → length bs < fuel
      → find_alloc fuel (u32 (p + 8 + 2 ^ 32 - 8)) s.alloc_head 0 s ≡ ok (p, last_or 0 bs) s
  find-run fuel enough =
      let target : u32 (p + 8 + 2 ^ 32 - 8) ≡ p = omega (arith, block-Fits.1) in
      let turned = Separate-without p w (((r, j) ∷ xs) ++ ys) bs zs h.separate in
      rw target (
        find_alloc-at fuel s.alloc_head 0 p w s bs zs h.block_chain
          (Apart-append p w bs zs turned.1).0 enough)

  place-run :
      (fuel : ℕ)
      → Above p ((r, j) ∷ xs)
      → Spaced p ys
      → length xs + 1 < fuel
      → find_place fuel p unlinked.free_head 0 unlinked ≡ ok (head_of ys, last_or r xs) unlinked
  place-run fuel above spaced enough =
      find_place-at fuel unlinked.free_head 0 p unlinked ((r, j) ∷ xs) ys
        unlinked-Unlinked.free_chain above spaced block-Fits.0 (omega arith)

  link-run : link p (head_of ys) (last_or r xs) unlinked ≡ ok tt released
  link-run =
      let (c, front, back) =
        Seg-split unlinked.mem unlinked.free_head ((r, j) ∷ xs) ys 0 unlinked-Unlinked.free_chain in
      link-inserted p (last_or r xs) (head_of ys) unlinked (omega (arith, block-Fits.1))
        (last-Fits unlinked.mem unlinked.free_head r j xs c front)
        (last-pos unlinked.mem unlinked.free_head r j xs c front)
        (last-link unlinked.mem unlinked.free_head r j xs c front ∙ head-Seg unlinked.mem c ys back)

  coalesce-run :
      (fuel : ℕ)
      → Spaced (last_or r xs) ((p, w) ∷ ys)
      → length ys + 1 < fuel
      → coalesce fuel (last_or r xs) released ≡ ok tt released
  unfolding coalesce
  coalesce-run fuel spaced enough =
      let e = last_or r xs in
      let (c, front, back) =
        Seg-split released.mem released.free_head ((r, j) ∷ xs) ((p, w) ∷ ys) 0
          released-Has.free_chain in
      let next = last-link released.mem released.free_head r j xs c front in
      let some_place : (e == 0) ≡ false =
        ground (arith, last-pos released.mem released.free_head r j xs c front) in
      let inside = last-room released.mem released.free_head r j xs c front in
      let link : (e + 4) % 2 ^ 32 ≡ e + 4 = omega arith in
      rw some_place (
        ap (λ k. merge fuel e (released.mem k) 0 released) link
        ∙ merge-Spaced fuel e 0 released ((p, w) ∷ ys) spaced
            (subst (λ a. Seg released.mem a ((p, w) ∷ ys) 0) (sym next) back) inside (omega arith))

-- A block that is not the last of its chain lies below a free region, and is adjacent to no free
-- region; the free regions below it run downwards and are not adjacent either, no two regions meet, and there are more
-- rounds than blocks and than free regions. Then `MM_Free` returns, the block has left the chain of
-- blocks, and it is a free region between those above and those below it.
pub free-between :
    (fuel p w r j : ℕ) (xs ys bs zs : List Region) (s : Heap)
    → Has s (((r, j) ∷ xs) ++ ys) (bs ++ (p, w) ∷ zs)
    → 0 < length zs
    → Above p ((r, j) ∷ xs)
    → Spaced (last_or r xs) ((p, w) ∷ ys)
    → length bs < fuel
    → length xs + 1 < fuel
    → length ys + 1 < fuel
    → (t : Heap) × (free fuel (p + 8) s ≡ ok tt t) × Has t (((r, j) ∷ xs) ++ (p, w) ∷ ys) (bs ++ zs)
unfolding free unlinked
free-between fuel p w r j xs ys bs zs s h some_block above spaced enough enough' enough'' =
    let link : (p + 4) % 2 ^ 32 ≡ p + 4 = omega (arith, (block-Fits p w r j xs ys bs zs s h).1) in
    let (front, fits, size, back) = Seg-at s.mem s.alloc_head bs p w zs 0 h.block_chain in
    let next : next_at s p ≡ s.mem (p + 4) = ap s.mem link in
    let not_null : (next_at s p == 0) ≡ false =
      ground (arith, next, some-next s.mem (s.mem (p + 4)) zs some_block back) in
    (
      released p w r j xs ys bs zs s h,
      rw
          (
            find-run p w r j xs ys bs zs s h fuel enough,
            not_null,
            place-run p w r j xs ys bs zs s h fuel above spaced.1 enough',
            link-run p w r j xs ys bs zs s h,
          )
          (coalesce-run p w r j xs ys bs zs s h fuel spaced enough''),
      released-Has p w r j xs ys bs zs s h,
    )
