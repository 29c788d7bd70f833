-- ===== src/Base/Bits.antt =====
-- Laws of `&`, `|` and `^` at variables: one equation for the lowest digit, from which follow the
-- readings of a low mask, of disjoint fields and of a single bit.
use Prim.Native.Nat.{
  ℕ, zero, suc, ◌+◌, ◌-◌, ◌*◌, ◌/◌, ◌%◌, ◌^◌, ◌≤◌, ◌<◌, min, max, bit_and, bit_or, bit_xor, digits,
  bitwise, bit_and-bitwise, bit_or-bitwise, bit_xor-bitwise, differ,
}
use mathlib.Core.Path.{◌≡◌, refl, sym, ap, ap₂, ◌∙◌}
use native.Mathlib.Nat.{
  pow-suc, one-le-pow, div-div-eq-div-mul, mul_comm, mul-add-mod_self_right, mod-eq_of_lt, mod-lt,
  div-add-mod',
}
use native.Mathlib.Omega.{arith}

module _ (z : ℕ → ℕ) (f : ℕ → ℕ → ℕ) where
  -- Fuel beyond the first number is spare.
  digits_spare : (m a b : ℕ) → a ≤ m → digits z f (suc m) a b ≡ digits z f m a b
  digits_spare zero zero b h = refl
  digits_spare zero (suc a) b h = absurd (omega arith)
  digits_spare (suc m) zero b h = refl
  digits_spare (suc m) (suc a) b h =
      ap (λ d. d * 2 + f (suc a % 2) (b % 2)) (digits_spare m (suc a / 2) (b / 2) (omega arith))

  digits_exact : (k a b : ℕ) → digits z f (k + a) a b ≡ digits z f a a b
  digits_exact zero a b = ap (λ m. digits z f m a b) (omega arith)
  digits_exact (suc k) a b =
      let one_more : suc k + a ≡ suc (k + a) = omega arith in
      ap (λ m. digits z f m a b) one_more
      ∙ digits_spare (k + a) a b (omega arith)
      ∙ digits_exact k a b

  bitwise_halve :
      (a b : ℕ)
      → bitwise z f (suc a) b ≡ bitwise z f (suc a / 2) (b / 2) * 2 + f (suc a % 2) (b % 2)
  bitwise_halve a b =
      let spare : a ≡ a - suc a / 2 + suc a / 2 = omega arith in
      ap (λ d. d * 2 + f (suc a % 2) (b % 2))
        (ap (λ m. digits z f m (suc a / 2) (b / 2)) spare
          ∙ digits_exact (a - suc a / 2) (suc a / 2) (b / 2))

pub and_halve : (a b : ℕ) → bit_and a b ≡ bit_and (a / 2) (b / 2) * 2 + min (a % 2) (b % 2)
and_halve zero b = simp bit_and-bitwise (omega arith)
and_halve (suc a) b = simp bit_and-bitwise (bitwise_halve (λ _. 0) min a b)

pub or_halve : (a b : ℕ) → bit_or a b ≡ bit_or (a / 2) (b / 2) * 2 + max (a % 2) (b % 2)
or_halve zero b = simp bit_or-bitwise (omega arith)
or_halve (suc a) b = simp bit_or-bitwise (bitwise_halve (λ c. c) max a b)

pub xor_halve : (a b : ℕ) → bit_xor a b ≡ bit_xor (a / 2) (b / 2) * 2 + differ (a % 2) (b % 2)
xor_halve zero b = simp bit_xor-bitwise (omega arith)
xor_halve (suc a) b = simp bit_xor-bitwise (bitwise_halve (λ c. c) differ a b)

-- One binary digit of a number.
abbrev pub digit : ℕ → ℕ → ℕ
digit a i = a / 2 ^ i % 2

pub digit-suc : (a i : ℕ) → digit a (suc i) ≡ digit (a / 2) i
digit-suc a i =
    ap (λ q. q % 2)
      (ap (λ d. a / d) (pow-suc 2 i ∙ mul_comm (2 ^ i) 2) ∙ sym (div-div-eq-div-mul a 2 (2 ^ i)))

-- A law of one digit, from the equation for the lowest digit.
module _ (op f : ℕ → ℕ → ℕ) (small : (x y : ℕ) → x < 2 → y < 2 → f x y < 2)
    (halve : (a b : ℕ) → op a b ≡ op (a / 2) (b / 2) * 2 + f (a % 2) (b % 2)) where
  digit-op : (i a b : ℕ) → digit (op a b) i ≡ f (digit a i) (digit b i)
  digit-op zero a b =
      omega (arith, halve a b, small (a % 2) (b % 2) (omega arith) (omega arith), f0)
    where
      f0 : f (a % 2) (b % 2) ≡ f (a / 2 ^ 0 % 2) (b / 2 ^ 0 % 2)
      f0 = ap₂ f (omega arith) (omega arith)
  digit-op (suc i) a b =
      digit-suc (op a b) i
      ∙ ap (λ c. digit c i)
          (omega (arith, halve a b, small (a % 2) (b % 2) (omega arith) (omega arith)))
      ∙ digit-op i (a / 2) (b / 2)
      ∙ ap₂ f (sym (digit-suc a i)) (sym (digit-suc b i))

pub digit-and : (a b i : ℕ) → digit (bit_and a b) i ≡ min (digit a i) (digit b i)
digit-and a b i = digit-op bit_and min (λ x y p q. omega arith) and_halve i a b

pub digit-or : (a b i : ℕ) → digit (bit_or a b) i ≡ max (digit a i) (digit b i)
digit-or a b i = digit-op bit_or max (λ x y p q. omega arith) or_halve i a b

differ_bits : (x y : ℕ) → x < 2 → y < 2 → differ x y ≡ (x + y) % 2
differ_bits zero y p q = omega arith
differ_bits (suc zero) zero p q = refl
differ_bits (suc zero) (suc zero) p q = refl
differ_bits (suc zero) (suc (suc y)) p q = absurd (omega arith)
differ_bits (suc (suc x)) y p q = absurd (omega arith)

pub digit-xor : (a b i : ℕ) → digit (bit_xor a b) i ≡ (digit a i + digit b i) % 2
digit-xor a b i =
    digit-op bit_xor differ (λ x y p q. omega (arith, differ_bits x y)) xor_halve i a b
    ∙ differ_bits (digit a i) (digit b i) (omega arith) (omega arith)

-- Results fit the width of their arguments.
and-zero_fuel : (n a : ℕ) → a ≤ n → bit_and a 0 ≡ 0
and-zero_fuel n zero h = refl
and-zero_fuel zero (suc a) h = absurd (omega arith)
and-zero_fuel (suc n) (suc a) h =
    omega (arith, and_halve (suc a) 0, and-zero_fuel n (suc a / 2) (omega arith))

pub and-zero : (a : ℕ) → bit_and a 0 ≡ 0
and-zero a = and-zero_fuel a a (omega arith)

or-zero_fuel : (n a : ℕ) → a ≤ n → bit_or a 0 ≡ a
or-zero_fuel n zero h = refl
or-zero_fuel zero (suc a) h = absurd (omega arith)
or-zero_fuel (suc n) (suc a) h =
    omega (arith, or_halve (suc a) 0, or-zero_fuel n (suc a / 2) (omega arith))

pub or-zero : (a : ℕ) → bit_or a 0 ≡ a
or-zero a = or-zero_fuel a a (omega arith)

pub and-one : (a : ℕ) → bit_and a 1 ≡ a % 2
and-one a = omega (arith, and_halve a 1, and-zero (a / 2))

pub double_pow : (k : ℕ) → 2 ^ suc k ≡ 2 * 2 ^ k
double_pow k = omega (arith, pow-suc 2 k)

pub mod_double : (a p : ℕ) → 0 < p → a % (2 * p) ≡ a / 2 % p * 2 + a % 2
mod_double a p h =
    ap (λ x. x % (2 * p)) split
    ∙ mul-add-mod_self_right (a / 2 / p) (2 * p) (a / 2 % p * 2 + a % 2)
    ∙ mod-eq_of_lt (omega (arith, mod-lt (a / 2) h))
  where
    split : a ≡ a / 2 / p * (2 * p) + (a / 2 % p * 2 + a % 2)
    split = omega (arith, div-add-mod' (a / 2) p)

-- `x & (2 ^ k - 1)` keeps the low `k` digits.
pub and-mask : (k a : ℕ) → bit_and a (2 ^ k - 1) ≡ a % 2 ^ k
and-mask zero a = and-zero a ∙ omega arith
and-mask (suc k) a =
    and_halve a (2 ^ suc k - 1)
    ∙ ap₂ (λ x y. x * 2 + y)
        (ap (bit_and (a / 2)) (omega (arith, double_pow k, one-le-pow k 2)) ∙ and-mask k (a / 2))
        (omega (arith, double_pow k, one-le-pow k 2))
    ∙ sym (mod_double a (2 ^ k) (one-le-pow k 2 (omega arith)))
    ∙ ap (λ m. a % m) (sym (double_pow k))

-- `(q << k) | r` is a sum where `r` fits into `k` digits.
pub or-fields : (k q r : ℕ) → r < 2 ^ k → bit_or (q * 2 ^ k) r ≡ q * 2 ^ k + r
or-fields zero q r h = ap (bit_or (q * 1)) (omega arith) ∙ or-zero (q * 1) ∙ omega arith
or-fields (suc k) q r h =
    or_halve (q * 2 ^ suc k) r
    ∙ ap (λ x. x * 2 + max (q * 2 ^ suc k % 2) (r % 2))
        (ap (λ x. bit_or x (r / 2)) halved ∙ or-fields k q (r / 2) (omega (arith, double_pow k)))
    ∙ omega (arith, doubled)
  where
    doubled : q * 2 ^ suc k ≡ 2 * (q * 2 ^ k)
    doubled = omega (arith, ap (λ (t : ℕ). q * t) (double_pow k))

    halved : q * 2 ^ suc k / 2 ≡ q * 2 ^ k
    halved = omega (arith, doubled)

-- `x & (m << k)` for a mask whose low `k` digits are clear.
pub and-shifted : (k a m : ℕ) → bit_and a (m * 2 ^ k) ≡ bit_and (a / 2 ^ k) m * 2 ^ k
and-shifted zero a m =
    let e : m * 2 ^ 0 ≡ m = omega arith in
    let d : a / 2 ^ 0 ≡ a = omega arith in rw (e, d) (omega arith)
and-shifted (suc k) a m =
    and_halve a (m * 2 ^ suc k)
    ∙ ap₂ (λ x y. x * 2 + y)
        (ap (bit_and (a / 2)) (omega (arith, doubled))
          ∙ and-shifted k (a / 2) m
          ∙ ap (λ x. bit_and x m * 2 ^ k) halved)
        low
    ∙ omega (arith, ap (λ (t : ℕ). bit_and (a / 2 ^ suc k) m * t) (double_pow k))
  where
    doubled : m * 2 ^ suc k ≡ 2 * (m * 2 ^ k)
    doubled = omega (arith, ap (λ (t : ℕ). m * t) (double_pow k))

    low : min (a % 2) (m * 2 ^ suc k % 2) ≡ 0
    low = omega (arith, doubled)

    halved : a / 2 / 2 ^ k ≡ a / 2 ^ suc k
    halved = div-div-eq-div-mul a 2 (2 ^ k) ∙ ap (λ d. a / d) (sym (double_pow k))

masks : (bit_and 0xabcd 0xff ≡ 0xcd) × (bit_or 0xab00 0xcd ≡ 0xabcd) × (bit_xor 6 3 ≡ 5)
masks = (refl, refl, refl)
