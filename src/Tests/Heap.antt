-- ===== src/Tests/Heap.antt =====
-- src/mm_allocator.c at a concrete heap.
use valeo.Base.{ℕ, ◌+◌, ◌≡◌, ◌⊎◌, inr, refl, arith, List, [], ◌∷◌, some, none, if◌then◌else◌, ◌==◌}
use valeo.Base.Run.{ok, halted}
use valeo.Mm.Heap.{Heap, init, alloc, free, coalesce}
use valeo.Mm.Heap.Fresh.{init-Has}
use valeo.Mm.Heap.Chain.{Region, Seg, Beside, Has}
use valeo.Mm.Heap.FirstFit.{first_fit, alloc-first_fit}
use valeo.Mm.Heap.RoundTrip.{free-alloc}
use valeo.Mm.Heap.Insert.{free-between}
use valeo.Mm.Heap.Stale.{coalesce-stale}

-- The heap as `MM_Init` makes it, but of 16 pages.
abbrev fresh : Heap
fresh =
    init 0xf4000000 16 (record { mem = λ _. 0; heap = 0; pages = 0; alloc_head = 0; free_head = 0 })

-- Its free region and its empty first block.
abbrev fresh_free : List Region
fresh_free = (0xf4000008, 65520) ∷ []

abbrev fresh_blocks : List Region
fresh_blocks = (0xf4000000, 0) ∷ []

fresh-Has : Has fresh fresh_free fresh_blocks
fresh-Has = init-Has 0xf4000000 16 _ (omega arith) (omega arith) (omega arith)

alloc-first_fit_example :
    ((p : ℕ) × (rest : List Region) × (t : Heap) × (first_fit 20 fresh_free ≡ some (p, rest))
      × (alloc 2 10 fresh ≡ ok (p + 8) t)
      × Has t rest ((p, 20) ∷ fresh_blocks))
    ⊎ ((first_fit 20 fresh_free ≡ none) × (alloc 2 10 fresh ≡ halted fresh))
alloc-first_fit_example =
    alloc-first_fit 2 10 fresh fresh_free fresh_blocks (omega arith) fresh-Has
      (inr (omega arith), tt) (omega arith)

free-alloc_example :
    (t : Heap) × (u : Heap) × (alloc 1 10 fresh ≡ ok 0xf4000010 t)
    × (free 2 0xf4000010 t ≡ ok tt u)
    × Has u fresh_free fresh_blocks
free-alloc_example =
    free-alloc 0 10 0xf4000008 65520 fresh [] fresh_blocks (omega arith) (omega arith) fresh-Has
      (omega arith) tt (omega arith)

-- Free regions at 4096, 2064 and 2048, the last two adjacent.
abbrev three : Heap
three = record {
  mem = λ a.
      if a == 4096
      then 64
      else if a == 4100
      then 2064
      else if a == 2064
      then 16
      else if a == 2068
      then 2048
      else if a == 2048
      then 16
      else 0;
  heap = 1024;
  pages = 1;
  alloc_head = 1024;
  free_head = 4096;
}

abbrev three_free : List Region
three_free = (4096, 64) ∷ (2064, 16) ∷ (2048, 16) ∷ []

three-Has : Has three three_free ((1024, 0) ∷ [])
three-Has = record {
  free_chain = (
    refl,
    (omega arith, omega arith),
    refl,
    (refl, (omega arith, omega arith), refl, (refl, (omega arith, omega arith), refl, refl)),
  );
  block_chain = (refl, (omega arith, omega arith), refl, refl);
  separate = (
    (inr (omega arith), (inr (omega arith), (inr (omega arith), tt))),
    ((inr (omega arith), (inr (omega arith), tt)), ((inr (omega arith), tt), (tt, tt))),
  );
}

coalesce-stale_example :
    (t : Heap) × (coalesce 2 2064 three ≡ ok tt t)
    × Seg t.mem t.free_head ((4096, 64) ∷ (2064, 16) ∷ (2048, 32) ∷ []) 0
    × ¬ Beside 2064 16 2048 32
coalesce-stale_example =
    coalesce-stale 1 three 4096 64 [] 2064 16 2048 16 [] ((1024, 0) ∷ []) three-Has (omega arith)
      refl tt (omega arith)

-- Two blocks at 4104 and 4128 behind the empty one at 4096, and a free region behind them.
abbrev two_blocks : Heap
two_blocks = record {
  mem = λ a.
      if a == 4104
      then 24
      else if a == 4108
      then 4096
      else if a == 4128
      then 24
      else if a == 4132
      then 4104
      else if a == 4152
      then 1000
      else 0;
  heap = 4096;
  pages = 1;
  alloc_head = 4128;
  free_head = 4152;
}

two_blocks-Has : Has two_blocks ((4152, 1000) ∷ []) ((4128, 24) ∷ (4104, 24) ∷ (4096, 0) ∷ [])
two_blocks-Has = record {
  free_chain = (refl, (omega arith, omega arith), refl, refl);
  block_chain = (
    refl,
    (omega arith, omega arith),
    refl,
    (refl, (omega arith, omega arith), refl, (refl, (omega arith, omega arith), refl, refl)),
  );
  separate = (
    (inr (omega arith), (inr (omega arith), (inr (omega arith), tt))),
    ((inr (omega arith), (inr (omega arith), tt)), ((inr (omega arith), tt), (tt, tt))),
  );
}

free-between_example :
    (t : Heap) × (free 3 4112 two_blocks ≡ ok tt t)
    × Has t ((4152, 1000) ∷ (4104, 24) ∷ []) ((4128, 24) ∷ (4096, 0) ∷ [])
free-between_example =
    free-between 3 4104 24 4152 1000 [] [] ((4128, 24) ∷ []) ((4096, 0) ∷ []) two_blocks
      two_blocks-Has (omega arith) (omega arith, tt) (omega arith, tt) (omega arith) (omega arith)
      (omega arith)
