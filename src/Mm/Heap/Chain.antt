-- ===== src/Mm/Heap/Chain.antt =====
-- The chains of headers of src/mm_allocator.c as lists of regions: an address and a size.
use valeo.Base.{ℕ, ◌+◌, ◌^◌, ◌≤◌, ◌<◌, ◌≡◌, ◌≢◌, ◌⊎◌, sym, subst, arith, List, [], ◌∷◌, ◌++◌, max}
use valeo.Base.Run.{update}
use valeo.Mm.Heap.{Heap}

abbrev pub Region : Type 0
Region = ℕ × ℕ

-- The region and its header lie in the address space, and not at 0.
abbrev pub Fits : (p n : ℕ) → Type 0
Fits p n = (0 < p) × (p + max n 8 ≤ 2 ^ 32)

-- The headers from `a` on are those of the regions, and the last link is `b`.
abbrev pub Seg : (m : ℕ → ℕ) (a : ℕ) → List Region → (b : ℕ) → Type 0
Seg m a [] b = a ≡ b
Seg m a ((p, n) ∷ rs) b = (a ≡ p) × Fits p n × (m p ≡ n) × Seg m (m (p + 4)) rs b

-- Two regions do not meet; one of fewer than 8 bytes has a header all the same.
abbrev pub Beside : (p n q l : ℕ) → Type 0
Beside p n q l = (p + max n 8 ≤ q) ⊎ (q + max l 8 ≤ p)

abbrev pub Apart : (p n : ℕ) → List Region → Type 0
Apart p n [] = Unit {0}
Apart p n ((q, l) ∷ rs) = Beside p n q l × Apart p n rs

abbrev pub Separate : List Region → Type 0
Separate [] = Unit {0}
Separate ((p, n) ∷ rs) = Apart p n rs × Separate rs

-- The heap has the free regions and the blocks, in the order of the two chains, and none of them meet.
pub record Has (s : Heap) (free blocks : List Region) : Type 0 where
  pub free_chain : Seg s.mem s.free_head free 0
  pub block_chain : Seg s.mem s.alloc_head blocks 0
  pub separate : Separate (free ++ blocks)

-- The word at `k` is in no header.
abbrev pub Avoid : (k : ℕ) → List Region → Type 0
Avoid k [] = Unit {0}
Avoid k ((p, n) ∷ rs) = ((k ≢ p) × (k ≢ p + 4)) × Avoid k rs

pub Apart-Avoid :
    (p n k : ℕ) (rs : List Region) → Apart p n rs → p ≤ k → k < p + max n 8 → Avoid k rs
Apart-Avoid p n k [] apart lo hi = tt
Apart-Avoid p n k ((q, l) ∷ rs) (beside, apart) lo hi =
    ((λ e. ground arith, λ e. ground arith), Apart-Avoid p n k rs apart lo hi)

pub Seg-update :
    (m : ℕ → ℕ) (k v a : ℕ) (rs : List Region) (b : ℕ)
    → Avoid k rs
    → Seg m a rs b
    → Seg (update m k v) a rs b
Seg-update m k v a [] b avoid seg = seg
Seg-update m k v a ((p, n) ∷ rs) b ((not_size, not_next), avoid) (here, fits, size, seg) =
    let same : update m k v (p + 4) ≡ m (p + 4) = ground arith in
    (
      here,
      fits,
      ground arith,
      subst (λ x. Seg (update m k v) x rs b) (sym same)
          (Seg-update m k v (m (p + 4)) rs b avoid seg),
    )

pub Seg-append :
    (m : ℕ → ℕ) (a : ℕ) (xs : List Region) (c : ℕ) (ys : List Region) (b : ℕ)
    → Seg m a xs c
    → Seg m c ys b
    → Seg m a (xs ++ ys) b
Seg-append m a [] c ys b left right = subst (λ x. Seg m x ys b) (sym left) right
Seg-append m a ((p, n) ∷ xs) c ys b (here, fits, size, left) right =
    (here, fits, size, Seg-append m (m (p + 4)) xs c ys b left right)

-- The last address of a chain behind `a`.
abbrev pub last_or : ℕ → List Region → ℕ
last_or a [] = a
last_or a ((p, n) ∷ rs) = last_or p rs

pub last-Avoid :
    (q l : ℕ) (xs ys zs : List Region)
    → Separate ((((q, l) ∷ xs) ++ ys) ++ zs)
    → Avoid (last_or q xs + 4) (ys ++ zs)
last-Avoid q l [] ys zs (apart, separate) =
    Apart-Avoid q l (q + 4) (ys ++ zs) apart (omega arith) (omega arith)
last-Avoid q l ((q', l') ∷ xs) ys zs (apart, separate) = last-Avoid q' l' xs ys zs separate

last-ne :
    (p n q l : ℕ) (xs : List Region)
    → Apart p n ((q, l) ∷ xs)
    → (p ≢ last_or q xs + 4) × (p + 4 ≢ last_or q xs + 4)
last-ne p n q l [] (beside, apart) = (λ e. ground arith, λ e. ground arith)
last-ne p n q l ((q', l') ∷ xs) (beside, apart) = last-ne p n q' l' xs apart

-- A new last link.
pub Seg-relink :
    (m : ℕ → ℕ) (a q l : ℕ) (xs : List Region) (b b' : ℕ)
    → Separate ((q, l) ∷ xs)
    → Seg m a ((q, l) ∷ xs) b
    → Seg (update m (last_or q xs + 4) b') a ((q, l) ∷ xs) b'
Seg-relink m a q l [] b b' separate (here, fits, size, end) =
    (here, fits, ground arith, ground arith)
Seg-relink m a q l ((q', l') ∷ xs) b b' (apart, separate) (here, fits, size, seg) =
    let k = last_or q' xs + 4 in
    let (not_size, not_next) = last-ne q l q' l' xs apart in
    let same : update m k b' (q + 4) ≡ m (q + 4) = ground arith in
    (
      here,
      fits,
      ground arith,
      subst (λ x. Seg (update m k b') x ((q', l') ∷ xs) b') (sym same)
          (Seg-relink m (m (q + 4)) q' l' xs b b' separate seg),
    )

-- A chain up to one of its regions, and from it on.
pub Seg-at :
    (m : ℕ → ℕ) (a : ℕ) (xs : List Region) (p n : ℕ) (ys : List Region) (b : ℕ)
    → Seg m a (xs ++ (p, n) ∷ ys) b
    → Seg m a xs p × Fits p n × (m p ≡ n) × Seg m (m (p + 4)) ys b
Seg-at m a [] p n ys b seg = seg
Seg-at m a ((q, l) ∷ xs) p n ys b (here, fits, size, seg) =
    let (front, fits', size', back) = Seg-at m (m (q + 4)) xs p n ys b seg in
    ((here, fits, size, front), fits', size', back)

pub last-Fits :
    (m : ℕ → ℕ) (a q l : ℕ) (xs : List Region) (b : ℕ)
    → Seg m a ((q, l) ∷ xs) b
    → last_or q xs + 4 < 2 ^ 32
last-Fits m a q l [] b (here, fits, size, seg) = omega arith
last-Fits m a q l ((q', l') ∷ xs) b (here, fits, size, seg) = last-Fits m (m (q + 4)) q' l' xs b seg
