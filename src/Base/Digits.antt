-- ===== src/Base/Digits.antt =====
-- Single binary digits of powers, of masks and of truncated words.
use Prim.Native.Nat.{ℕ, zero, suc, ◌+◌, ◌-◌, ◌*◌, ◌/◌, ◌%◌, ◌^◌, ◌<◌}
use mathlib.Core.Path.{◌≡◌, refl, sym, ap, ◌∙◌}
use native.Mathlib.Nat.{one-le-pow, zero-div}
use native.Mathlib.Omega.{arith}
use valeo.Base.Tests.{◌==◌, if◌then◌else◌}
use valeo.Base.Bits.{digit, digit-suc, mod_double, double_pow}

digit-zero : (j : ℕ) → digit 0 j ≡ 0
digit-zero j = ap (λ q. q % 2) (zero-div (2 ^ j))

pub digit-pow : (i j : ℕ) → digit (2 ^ i) j ≡ (if j == i then 1 else 0)
digit-pow zero zero = refl
digit-pow zero (suc j) = digit-suc 1 j ∙ digit-zero j ∙ ground arith
digit-pow (suc i) zero = ground (arith, double_pow i)
digit-pow (suc i) (suc j) =
    digit-suc (2 ^ suc i) j
    ∙ ap (λ n. digit n j) (omega (arith, double_pow i))
    ∙ digit-pow i j
    ∙ ground arith

pub digit-ones : (k j : ℕ) → j < k → digit (2 ^ k - 1) j ≡ 1
digit-ones zero j h = elim h [ ]
digit-ones (suc k) zero h = omega (arith, double_pow k, one-le-pow k 2)
digit-ones (suc k) (suc j) h =
    digit-suc (2 ^ suc k - 1) j
    ∙ ap (λ n. digit n j) (omega (arith, double_pow k, one-le-pow k 2))
    ∙ digit-ones k j (omega arith)

mod_pow : (k n : ℕ) → n % 2 ^ suc k ≡ n / 2 % 2 ^ k * 2 + n % 2
mod_pow k n = ap (λ m. n % m) (double_pow k) ∙ mod_double n (2 ^ k) (one-le-pow k 2 (omega arith))

pub digit-mod : (k n j : ℕ) → j < k → digit (n % 2 ^ k) j ≡ digit n j
digit-mod zero n j h = elim h [ ]
digit-mod (suc k) n zero h = omega (arith, mod_pow k n)
digit-mod (suc k) n (suc j) h =
    digit-suc (n % 2 ^ suc k) j
    ∙ ap (λ m. digit m j) (omega (arith, mod_pow k n))
    ∙ digit-mod k (n / 2) j (omega arith)
    ∙ sym (digit-suc n j)
