-- ===== src/Mm/Heap/Split.antt =====
-- A region that `MM_Alloc` of src/mm_allocator.c splits in two keeps apart from all others.
use valeo.Base.{ℕ, ◌+◌, ◌-◌, ◌≤◌, arith, List, [], ◌∷◌, ◌++◌, max}
use valeo.Mm.Heap.Chain.{Region, Beside, Apart, Separate, Avoid}

Apart-part :
    (p n q l : ℕ) (rs : List Region)
    → p ≤ q
    → q + max l 8 ≤ p + max n 8
    → Apart p n rs
    → Apart q l rs
Apart-part p n q l [] from to apart = tt
Apart-part p n q l ((r, k) ∷ rs) from to (beside, apart) =
    (ground arith, Apart-part p n q l rs from to apart)

Apart-insert :
    (q l p n : ℕ) (ys zs : List Region)
    → Beside q l p n
    → Apart q l (ys ++ zs)
    → Apart q l (ys ++ (p, n) ∷ zs)
Apart-insert q l p n [] zs beside apart = (beside, apart)
Apart-insert q l p n ((r, k) ∷ ys) zs beside (first, apart) =
    (first, Apart-insert q l p n ys zs beside apart)

pub Separate-insert :
    (p n : ℕ) (ys zs : List Region)
    → Apart p n (ys ++ zs)
    → Separate (ys ++ zs)
    → Separate (ys ++ (p, n) ∷ zs)
Separate-insert p n [] zs apart separate = (apart, separate)
Separate-insert p n ((q, l) ∷ ys) zs (beside, apart) (first, separate) =
    (Apart-insert q l p n ys zs (ground arith) first, Separate-insert p n ys zs apart separate)

module _ (p n w : ℕ) (least : 8 ≤ w) (room : w + 8 ≤ n) (ys zs : List Region) where
  split-Apart :
      (q l : ℕ) (xs : List Region)
      → Apart q l (xs ++ (p, n) ∷ ys ++ zs)
      → Apart q l (xs ++ (p + w, n - w) ∷ ys ++ (p, w) ∷ zs)
  split-Apart q l [] (beside, apart) =
      (ground arith, Apart-insert q l p w ys zs (ground arith) apart)
  split-Apart q l ((r, k) ∷ xs) (beside, apart) = (beside, split-Apart q l xs apart)

  pub split-Separate :
      (xs : List Region)
      → Separate (xs ++ (p, n) ∷ ys ++ zs)
      → Separate (xs ++ (p + w, n - w) ∷ ys ++ (p, w) ∷ zs)
  split-Separate [] (apart, separate) =
      let rest = Apart-part p n (p + w) (n - w) (ys ++ zs) (omega arith) (omega arith) apart in
      let block = Apart-part p n p w (ys ++ zs) (omega arith) (omega arith) apart in
      (
        Apart-insert (p + w) (n - w) p w ys zs (ground arith) rest,
        Separate-insert p w ys zs block separate,
      )
  split-Separate ((q, l) ∷ xs) (apart, separate) =
      (split-Apart q l xs apart, split-Separate xs separate)

pub Apart-append :
    (p n : ℕ) (xs ys : List Region) → Apart p n (xs ++ ys) → Apart p n xs × Apart p n ys
Apart-append p n [] ys apart = (tt, apart)
Apart-append p n ((q, l) ∷ xs) ys (beside, apart) =
    let (left, right) = Apart-append p n xs ys apart in ((beside, left), right)

pub Avoid-append : (k : ℕ) (xs ys : List Region) → Avoid k (xs ++ ys) → Avoid k xs × Avoid k ys
Avoid-append k [] ys avoid = (tt, avoid)
Avoid-append k ((q, l) ∷ xs) ys (here, avoid) =
    let (left, right) = Avoid-append k xs ys avoid in ((here, left), right)

pub Separate-at :
    (p n : ℕ) (xs ys zs : List Region)
    → Separate ((xs ++ (p, n) ∷ ys) ++ zs)
    → Apart p n xs × Apart p n (ys ++ zs)
Separate-at p n [] ys zs (apart, separate) = (tt, apart)
Separate-at p n ((q, l) ∷ xs) ys zs (first, separate) =
    let (left, right) = Separate-at p n xs ys zs separate in
    let (front, back) = Apart-append q l (xs ++ (p, n) ∷ ys) zs first in
    let (before, others) = Apart-append q l xs ((p, n) ∷ ys) front in ((ground arith, left), right)

pub Separate-left : (xs ys : List Region) → Separate (xs ++ ys) → Separate xs
Separate-left [] ys separate = tt
Separate-left ((q, l) ∷ xs) ys (apart, separate) =
    ((Apart-append q l xs ys apart).0, Separate-left xs ys separate)

pub Apart-join :
    (q l : ℕ) (xs zs : List Region) → Apart q l xs → Apart q l zs → Apart q l (xs ++ zs)
Apart-join q l [] zs left right = right
Apart-join q l ((r, k) ∷ xs) zs (beside, left) right = (beside, Apart-join q l xs zs left right)

pub Separate-mid :
    (p n : ℕ) (xs zs : List Region)
    → Separate (xs ++ (p, n) ∷ zs)
    → Apart p n xs × Apart p n zs × Separate (xs ++ zs)
Separate-mid p n [] zs (apart, separate) = (tt, apart, separate)
Separate-mid p n ((q, l) ∷ xs) zs (first, separate) =
    let (before, behind, rest) = Separate-mid p n xs zs separate in
    let (left, (beside, right)) = Apart-append q l xs ((p, n) ∷ zs) first in
    ((ground arith, before), behind, (Apart-join q l xs zs left right, rest))

-- Two regions that meet end to end are as far from all others as their union.
pub Apart-union :
    (p w k : ℕ) (rs : List Region) → 8 ≤ w → Apart p w rs → Apart (p + w) k rs → Apart p (w + k) rs
Apart-union p w k [] least low high = tt
Apart-union p w k ((q, l) ∷ rs) least (beside, low) (beside', high) =
    (ground arith, Apart-union p w k rs least low high)
