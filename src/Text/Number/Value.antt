-- ===== src/Text/Number/Value.antt =====
-- The digits that `number` of src/lib/printf.c prints stand for its argument.
use valeo.Base.{
  ℕ, zero, suc, ◌+◌, ◌*◌, ◌/◌, ◌%◌, ◌^◌, ◌≤◌, ◌<◌, ◌≡◌, refl, ap, ap₂, sym, ◌∙◌, arith, Bool, false,
  List, [], ◌∷◌, ◌++◌, map, ◌==◌, if◌then◌else◌, ◌≢◌, some, length, Bool-cases, inl, inr,
}
use native.Mathlib.Nat.{
  div-add-mod', add-mul-div_right, add-mul-mod_self_right, mul_right_comm, mod-lt, zero-div,
  zero-mod, div-lt_iff_lt-mul, pow-suc, mul-le-mul_left,
}
use valeo.Text.Strtol.{strtoul}
use valeo.Text.Strtol.Digits.{value_from, AllBelow, AllSpace, Ends, strtoul-digits}
use valeo.Text.Strtol.Digits
use valeo.Text.Number.{do_div, digit_char, digits_loop, digits}

module _ (n base : ℕ) (pos : 0 < base) where
  abbrev high : ℕ
  high = n / 2 ^ 32

  -- The number as what the second division divides, and a multiple of the base.
  halves : n ≡ high % base * 2 ^ 32 + n % 2 ^ 32 + high / base * 2 ^ 32 * base
  halves = omega (arith, div-add-mod' high base, mul_right_comm (high / base) (2 ^ 32) base)

  keep_mod : (if high == 0 then high else high % base) ≡ high % base
  keep_mod = ground (arith, zero-mod base)

  keep_div : (if high == 0 then high else high / base) ≡ high / base
  keep_div = ground (arith, zero-div base)

  -- `do_div` divides a number of any size by a base, although it works on its two halves.
  pub do_div_lem : (do_div n base).0 ≡ n / base × ((do_div n base).1 ≡ n % base)
  unfolding do_div
  do_div_lem =
      rw (keep_mod, keep_div)
        (
          sym (ap (λ m. m / base) halves ∙ add-mul-div_right _ _ pos),
          sym (ap (λ m. m % base) halves ∙ add-mul-mod_self_right _ _ base),
        )

-- The digits of `n` in front of `ds`, the highest first.
digits_of : (fuel n base : ℕ) → List ℕ → List ℕ
digits_of zero n base ds = ds
digits_of (suc fuel) n base ds =
    let rest = digits_of fuel (n / base) base (n % base ∷ ds) in if n == 0 then ds else rest

nonzero : (m : ℕ) → (suc m == 0) ≡ false
nonzero m = ground arith

zero_char : (large : Bool) → b'0' ∷ [] ≡ map (digit_char large) (0 ∷ [])
unfolding digit_char
zero_char large = refl

module _ (base : ℕ) (large : Bool) (two : 2 ≤ base) where
  digits_loop-map :
      (fuel n : ℕ) (ds : List ℕ)
      → digits_loop fuel n base large (map (digit_char large) ds)
        ≡ map (digit_char large) (digits_of fuel n base ds)
  unfolding digits_loop digits_of
  digits_loop-map zero n ds = refl
  digits_loop-map (suc fuel) zero ds = refl
  digits_loop-map (suc fuel) (suc m) ds =
      let (quotient, rest) = do_div_lem (suc m) base (omega arith) in
      rw (nonzero m, quotient, rest) (digits_loop-map fuel (suc m / base) (suc m % base ∷ ds))

  digits_of-value :
      (fuel n : ℕ) (ds : List ℕ)
      → n < 2 ^ fuel
      → value_from base 0 (digits_of fuel n base ds) ≡ value_from base n ds
  unfolding digits_of
  digits_of-value zero zero ds small = refl
  digits_of-value zero (suc m) ds small = absurd (omega arith)
  digits_of-value (suc fuel) zero ds small = refl
  digits_of-value (suc fuel) (suc m) ds small =
      rw (nonzero m) (digits_of-value fuel (suc m / base) (suc m % base ∷ ds) fits)
      ∙ ap (λ v. value_from base v ds) (div-add-mod' (suc m) base)
    where
      fits : suc m / base < 2 ^ fuel
      fits =
          (div-lt_iff_lt-mul {k = base} (omega arith)).1
            (omega (arith, pow-suc 2 fuel, mul-le-mul_left (2 ^ fuel) two))

  digits_of-AllBelow :
      (fuel n : ℕ) (ds : List ℕ) → AllBelow base ds → AllBelow base (digits_of fuel n base ds)
  unfolding digits_of
  digits_of-AllBelow zero n ds all = all
  digits_of-AllBelow (suc fuel) zero ds all = all
  digits_of-AllBelow (suc fuel) (suc m) ds all = rw (nonzero m) (
      digits_of-AllBelow fuel (suc m / base) (suc m % base ∷ ds)
        (mod-lt (suc m) (omega arith), all))

  -- What `number` stores as the digits of a 64-bit number, in a base of 2 or more, are digits below
  -- the base, and the number that they stand for is the argument.
  pub digits-value :
      (n : ℕ)
      → n < 2 ^ 64
      → (ds : List ℕ) × (digits n base large ≡ map (digit_char large) ds)
        × AllBelow base ds
        × (value_from base 0 ds ≡ n)
  unfolding digits
  digits-value zero small = (0 ∷ [], zero_char large, (omega arith, tt), omega arith)
  digits-value (suc m) small = (
    digits_of 64 (suc m) base [],
    rw (nonzero m) (digits_loop-map 64 (suc m) []),
    digits_of-AllBelow 64 (suc m) [] tt,
    digits_of-value 64 (suc m) [] small,
  )

digits_loop-length :
    (fuel n base : ℕ) (large : Bool) (tmp : List ℕ)
    → length (digits_loop fuel n base large tmp) ≤ fuel + length tmp
unfolding digits_loop
digits_loop-length zero n base large tmp = omega arith
digits_loop-length (suc fuel) n base large tmp =
    let next = digit_char large (do_div n base).1 in
    let rest = digits_loop-length fuel (do_div n base).0 base large (next ∷ tmp) in
    elim (Bool-cases (n == 0)) [
      | inl done ↦ rw done (omega arith)
      | inr more ↦ rw more (omega (arith, rest))
    ]

pub digits-length : (n base : ℕ) (large : Bool) → length (digits n base large) ≤ 64
unfolding digits
digits-length n base large = elim (Bool-cases (n == 0)) [
  | inl none ↦ rw none (omega arith)
  | inr some_digits ↦ rw some_digits (omega (arith, digits_loop-length 64 n base large []))
]

zero_digits : (base : ℕ) → digits 0 base false ≡ b'0' ∷ []
unfolding digits
zero_digits base = refl

cons-nil : {c : ℕ} {text : List ℕ} → c ∷ text ≢ []
cons-nil h = ground arith

same_char : (d : ℕ) → digit_char false d ≡ Digits.digit_char d
unfolding digit_char Digits.digit_char
same_char d = refl

same_chars : (ds : List ℕ) → map (digit_char false) ds ≡ map Digits.digit_char ds
same_chars [] = refl
same_chars (d ∷ ds) = ap₂ (λ c text. c ∷ text) (same_char d) (same_chars ds)

-- The digits as those of `Text.Strtol.Digits`; there is at least one.
pub digits-chars :
    (n base : ℕ)
    → n < 2 ^ 64
    → 2 ≤ base
    → (d : ℕ) × (ds : List ℕ) × (digits n base false ≡ map Digits.digit_char (d ∷ ds))
      × AllBelow base (d ∷ ds)
      × (value_from base 0 (d ∷ ds) ≡ n)
digits-chars n base small two =
    let (ds, same, all, value) = digits-value base false two n small in split ds same all value
  where
    split :
        (ds : List ℕ)
        → digits n base false ≡ map (digit_char false) ds
        → AllBelow base ds
        → value_from base 0 ds ≡ n
        → (d : ℕ) × (ds : List ℕ) × (digits n base false ≡ map Digits.digit_char (d ∷ ds))
          × AllBelow base (d ∷ ds)
          × (value_from base 0 (d ∷ ds) ≡ n)
    split [] same all value =
        absurd (cons-nil (sym (zero_digits base) ∙ ap (λ m. digits m base false) value ∙ same))
    split (d ∷ ds) same all value = (d, ds, same ∙ same_chars (d ∷ ds), all, value)

-- `strtoul` reads back what `number` prints in lower case, of a 32-bit number in a base from 2 to 36
-- other than 16, when spaces stand in front and no further digit follows.
pub strtoul-printed :
    (n base : ℕ) (spaces rest : List ℕ)
    → n < 2 ^ 32
    → 2 ≤ base
    → base ≤ 36
    → base ≢ 16
    → AllSpace spaces
    → Ends base rest
    → strtoul (spaces ++ (digits n base false ++ rest)) base ≡ record { value = n; end = some rest }
strtoul-printed n base spaces rest fits two small plain space ends =
    let (d, ds, same, all, value) = digits-chars n base (omega arith) two in
    rw same (
      strtoul-digits base spaces d ds rest two small plain space all ends (omega arith)
      ∙ ap (λ v. record { value = v; end = some rest }) value)
