-- ===== src/Strings/Text.antt =====
-- Texts in memory, as the routines of include/lib/string.h find them.
use valeo.Base.{ℕ, zero, suc, ◌+◌, ◌≤◌, ◌<◌, ◌≡◌, ap, ◌∙◌, arith, List, [], ◌∷◌, length}

abbrev pub Memory : Type 0
Memory = ℕ → ℕ

-- The bytes from `p` on are those of the text.
abbrev pub Bytes : (m : Memory) (p : ℕ) → List ℕ → Type 0
Bytes m p [] = Unit {0}
Bytes m p (c ∷ text) = (m p ≡ c) × Bytes m (p + 1) text

-- No byte of the text is 0.
abbrev pub NoZero : List ℕ → Type 0
NoZero [] = Unit {0}
NoZero (c ∷ text) = (0 < c) × NoZero text

-- The C string at `p` is the text.
pub record IsString (m : Memory) (p : ℕ) (text : List ℕ) : Type 0 where
  pub bytes : Bytes m p text
  pub no_zero : NoZero text
  pub ends : m (p + length text) ≡ 0

pub Bytes-frame :
    {m m' : Memory} (p : ℕ) (text : List ℕ)
    → ((k : ℕ) → p ≤ k → k < p + length text → m' k ≡ m k)
    → Bytes m p text
    → Bytes m' p text
Bytes-frame p [] same b = tt
Bytes-frame p (c ∷ text) same (first, b) = (
  same p (omega arith) (omega arith) ∙ first,
  Bytes-frame (p + 1) text (λ k h h'. same k (omega arith) (omega arith)) b,
)

pub IsString-frame :
    {m m' : Memory} (p : ℕ) (text : List ℕ)
    → ((k : ℕ) → p ≤ k → k ≤ p + length text → m' k ≡ m k)
    → IsString m p text
    → IsString m' p text
IsString-frame p text same s = record {
  bytes = Bytes-frame p text (λ k h h'. same k h (omega arith)) s.bytes;
  no_zero = s.no_zero;
  ends = same (p + length text) (omega arith) (omega arith) ∙ s.ends;
}

-- The string behind its first byte.
pub IsString-tail :
    {m : Memory} (p c : ℕ) (text : List ℕ) → IsString m p (c ∷ text) → IsString m (p + 1) text
IsString-tail {m = m} p c text s = record {
  bytes = s.bytes.1;
  no_zero = s.no_zero.1;
  ends = ap m (omega arith) ∙ s.ends;
}

pub IsString-end : {m : Memory} (p : ℕ) → IsString m p [] → m p ≡ 0
IsString-end {m = m} p s = ap m (omega arith) ∙ s.ends

pub IsString-no_zero :
    {m : Memory} (p : ℕ) (text : List ℕ) (j : ℕ)
    → IsString m p text
    → j < length text
    → 0 < m (p + j)
IsString-no_zero p [] j s h = absurd (omega arith)
IsString-no_zero {m = m} p (c ∷ text) zero s h =
    let here : m (p + 0) ≡ m p = ap m (omega arith) in omega (arith, s.bytes.0, s.no_zero.0)
IsString-no_zero {m = m} p (c ∷ text) (suc j) s h =
    let here : m (p + suc j) ≡ m (p + 1 + j) = ap m (omega arith) in
    omega (arith, IsString-no_zero (p + 1) text j (IsString-tail p c text s) (omega arith))
