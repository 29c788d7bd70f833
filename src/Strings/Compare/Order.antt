-- ===== src/Strings/Compare/Order.antt =====
-- The order of texts by their first different byte, which the routines of include/lib/string.h report as
-- 1, 0 or -1.
use valeo.Base.{
  ℕ, zero, suc, ◌+◌, ◌<◌, ◌≡◌, refl, ap, ap₂, ◌∙◌, arith, List, [], ◌∷◌, ◌==◌, if◌then◌else◌, true,
  Bool-cases, inl, inr,
}
use valeo.Strings.Text.{Memory}
use valeo.Strings.Compare.{minus_one, sign}

unfoldable pub order : List ℕ → List ℕ → ℕ
order [] [] = 0
order [] (d ∷ b) = minus_one
order (c ∷ a) [] = 1
order (c ∷ a) (d ∷ b) = let rest = order a b in if c == d then rest else sign c d

pub order-same : (a : List ℕ) → order a a ≡ 0
unfolding order
order-same [] = refl
order-same (c ∷ a) = let same : (c == c) ≡ true = ground arith in rw same (order-same a)

pub order-zero : (a b : List ℕ) → order a b ≡ 0 → a ≡ b
unfolding order
order-zero [] [] e = refl
order-zero [] (d ∷ b) e = absurd (omega arith)
order-zero (c ∷ a) [] e = absurd (omega arith)
order-zero (c ∷ a) (d ∷ b) e = elim (Bool-cases (c == d)) [
  | inl same ↦ ap₂ ◌∷◌ (ground arith) (order-zero a b (ground arith))
  | inr other ↦ absurd (ground arith)
]

-- The bytes of a block.
unfoldable pub read : (m : Memory) (n p : ℕ) → List ℕ
read m zero p = []
read m (suc n) p = m p ∷ read m n (p + 1)

-- Two blocks have the same bytes.
abbrev pub Same : (m : Memory) (n p q : ℕ) → Type 0
Same m n p q = (j : ℕ) → j < n → m (p + j) ≡ m (q + j)

Same-tail : (m : Memory) (n p q : ℕ) → Same m (suc n) p q → Same m n (p + 1) (q + 1)
Same-tail m n p q same j h = ap m (omega arith) ∙ same (suc j) (omega arith) ∙ ap m (omega arith)

pub order-Same : (m : Memory) (n p q : ℕ) → Same m n p q → order (read m n p) (read m n q) ≡ 0
unfolding order read
order-Same m zero p q same = refl
order-Same m (suc n) p q same =
    let first : m p ≡ m q = ap m (omega arith) ∙ same 0 (omega arith) ∙ ap m (omega arith) in
    let equal : (m p == m q) ≡ true = ground arith in
    rw equal (order-Same m n (p + 1) (q + 1) (Same-tail m n p q same))

Same-cons :
    (m : Memory) (n p q j : ℕ)
    → m p ≡ m q
    → Same m n (p + 1) (q + 1)
    → j < suc n
    → m (p + j) ≡ m (q + j)
Same-cons m n p q zero first rest h = ap m (omega arith) ∙ first ∙ ap m (omega arith)
Same-cons m n p q (suc j) first rest h =
    ap m (omega arith) ∙ rest j (omega arith) ∙ ap m (omega arith)

pub Same-order : (m : Memory) (n p q : ℕ) → order (read m n p) (read m n q) ≡ 0 → Same m n p q
unfolding order read
Same-order m zero p q e = λ j h. absurd (omega arith)
Same-order m (suc n) p q e = elim (Bool-cases (m p == m q)) [
  | inl same ↦
      let rest = Same-order m n (p + 1) (q + 1) (ground arith) in
      λ j h. Same-cons m n p q j (ground arith) rest h
  | inr other ↦ absurd (ground arith)
]
