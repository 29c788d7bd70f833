-- ===== src/Mm/Heap/Spaced.antt =====
-- Chains of src/mm_allocator.c that run downwards with gaps.
use valeo.Base.{
  ℕ, zero, suc, ◌+◌, ◌%◌, ◌^◌, ◌≤◌, ◌<◌, ◌≡◌, refl, ap, ◌∙◌, arith, List, [], ◌∷◌, length, true,
  false, ◌==◌,
}
use valeo.Base.Run.{ok}
use valeo.Mm.Heap.{Heap, next_at, merge}
use valeo.Mm.Heap.Chain.{Region, Seg}

-- The chain runs from high addresses to low ones, and no region reaches up to the one in front of it.
abbrev pub Spaced : (p : ℕ) → List Region → Type 0
Spaced p [] = Unit {0}
Spaced p ((q, l) ∷ rs) = (q + l < p) × Spaced q rs

-- Where nothing is adjacent, `MM_Coalesce` changes nothing.
pub merge-Spaced :
    (fuel p prev : ℕ) (s : Heap) (rs : List Region)
    → Spaced p rs
    → Seg s.mem (s.mem (p + 4)) rs 0
    → p + 8 ≤ 2 ^ 32
    → length rs < fuel
    → merge fuel p (s.mem (p + 4)) prev s ≡ ok tt s
unfolding merge
merge-Spaced zero p prev s rs spaced seg inside enough = absurd (omega arith)
merge-Spaced (suc fuel) p prev s [] spaced seg inside enough =
    let null : (s.mem (p + 4) == 0) ≡ true = ground arith in rw null refl
merge-Spaced (suc fuel) p prev s ((q, l) ∷ rs) (below, spaced) (here, fits, size, seg) inside
      enough =
    let not_null : (q == 0) ≡ false = ground arith in
    let end : (q + s.mem q) % 2 ^ 32 ≡ q + l = omega arith in
    let gap : (p == q + l) ≡ false = ground arith in
    let next : (p + 4) % 2 ^ 32 ≡ p + 4 = omega arith in
    let next' : (q + 4) % 2 ^ 32 ≡ q + 4 = omega arith in
    let rest = merge-Spaced fuel q p s rs spaced seg (omega arith) (omega arith) in
    rw (here, not_null, end, gap)
      (ap (λ x. merge fuel x (next_at s x) p s) (ap s.mem next ∙ here)
        ∙ ap (λ k. merge fuel q (s.mem k) p s) next'
        ∙ rest)

pub some-next : (m : ℕ → ℕ) (a : ℕ) (rs : List Region) → 0 < length rs → Seg m a rs 0 → 0 < a
some-next m a [] some_region seg = absurd (omega arith)
some-next m a ((q, l) ∷ rs) some_region (here, fits, size, seg) = omega arith

pub next-below :
    (m : ℕ → ℕ) (a p : ℕ) (rs : List Region) → 0 < p → Spaced p rs → Seg m a rs 0 → a < p
next-below m a p [] there spaced seg = omega arith
next-below m a p ((q, l) ∷ rs) there (below, spaced) (here, fits, size, seg) = omega arith
