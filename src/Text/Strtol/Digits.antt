-- ===== src/Text/Strtol/Digits.antt =====
-- What the conversions of src/lib/strtol.c make of a run of digits.
use valeo.Base.{
  ℕ, zero, suc, ◌+◌, ◌-◌, ◌*◌, ◌^◌, ◌≤◌, ◌<◌, ◌≡◌, refl, ap, ◌∙◌, arith, true, false, List, [], ◌∷◌,
  ◌++◌, map, some, ◌==◌, ltb, leb, ◌&&◌, if◌then◌else◌, holds_below, holds_below_sound, not, ◌≢◌,
}
use valeo.Text.Ctype.{is_space, is_mask}
use valeo.Text.Strtol.{
  Parsed, u32, abs_long_min, skip_space, digit_value, accumulate, choose_base, drop_sign, strtoul,
  strtol,
}

-- The character of a digit below 36, in lower case.
unfoldable pub digit_char : ℕ → ℕ
digit_char d = if ltb d 10 then b'0' + d else b'a' + (d - 10)

pub digit_value-digit_char : (d : ℕ) → d < 36 → digit_value (digit_char d) ≡ d
unfolding digit_value digit_char
digit_value-digit_char d h = ground arith

-- The number that digits stand for, the highest first, after digits of value `v`.
abbrev pub value_from : (base v : ℕ) → List ℕ → ℕ
value_from base v [] = v
value_from base v (d ∷ ds) = value_from base (v * base + d) ds

abbrev pub AllBelow : ℕ → List ℕ → Type 0
AllBelow base [] = Unit {0}
AllBelow base (d ∷ ds) = (d < base) × AllBelow base ds

-- The text does not go on with a digit of the base.
abbrev pub Ends : ℕ → List ℕ → Type 0
Ends base [] = Unit {0}
Ends base (c ∷ text) = base ≤ digit_value c

pub le-mul_base : (v base : ℕ) → 1 ≤ base → v ≤ v * base
le-mul_base v zero h = absurd (omega arith)
le-mul_base v (suc b) h = omega arith

pub value_from-le : (base v : ℕ) (ds : List ℕ) → 1 ≤ base → v ≤ value_from base v ds
value_from-le base v [] h = omega arith
value_from-le base v (d ∷ ds) h =
    omega (arith, value_from-le base (v * base + d) ds h, le-mul_base v base h)

pub accumulate-digits :
    (base v : ℕ) (ds rest : List ℕ)
    → 2 ≤ base
    → base ≤ 36
    → AllBelow base ds
    → Ends base rest
    → value_from base v ds < 2 ^ 32
    → accumulate base v (map digit_char ds ++ rest)
      ≡ record { value = value_from base v ds; end = some rest }
unfolding accumulate
accumulate-digits base v [] [] two small all ends fits = refl
accumulate-digits base v [] (c ∷ rest) two small all ends fits =
    let e : leb base (digit_value c) ≡ true = ground arith in rw e
accumulate-digits base v (d ∷ ds) rest two small all ends fits =
    let below = value_from-le base (v * base + d) ds (omega arith) in
    let value = digit_value-digit_char d (omega (arith, all.0)) in
    let w : u32 (v * base) ≡ v * base = omega (arith, below) in
    let digit : leb base d ≡ false = ground (arith, all.0) in
    let no_wrap : ltb (v * base) v ≡ false = ground (arith, le-mul_base v base) in
    let next : u32 (v * base + d) ≡ v * base + d = omega (arith, below) in
    rw (value, digit, w, no_wrap, next)
      (accumulate-digits base (v * base + d) ds rest two small all.1 ends fits)

-- A space in front is what `isspace` accepts.
abbrev pub AllSpace : List ℕ → Type 0
AllSpace [] = Unit {0}
AllSpace (c ∷ text) = (is_space c ≡ true) × AllSpace text

skip_space-append :
    (spaces text : List ℕ) → AllSpace spaces → skip_space (spaces ++ text) ≡ skip_space text
unfolding skip_space
skip_space-append [] text h = refl
skip_space-append (c ∷ spaces) text h = rw h.0 (skip_space-append spaces text h.1)

plain_table :
    holds_below 36 (λ d.
      not (is_space (digit_char d)) && (not (digit_char d == b'+') && not (digit_char d == b'-')))
    ≡ true
unfolding holds_below is_mask digit_char
plain_table = refl

-- A digit is no space and no sign.
pub digit_char_plain :
    (d : ℕ)
    → d < 36
    → (is_space (digit_char d) ≡ false)
      × ((digit_char d == b'+') ≡ false)
      × ((digit_char d == b'-') ≡ false)
digit_char_plain d h = ground (arith, holds_below_sound 36 _ d h plain_table)

choose_base-plain :
    (base : ℕ) (text : List ℕ)
    → (base == 16) ≡ false
    → (base == 0) ≡ false
    → choose_base base text ≡ (base, text)
unfolding choose_base
choose_base-plain base text a b = rw (a, b)

module _ (base : ℕ) (spaces : List ℕ) (d : ℕ) (ds rest : List ℕ) (two : 2 ≤ base)
    (small : base ≤ 36) (plain : base ≢ 16) (space : AllSpace spaces) (all : AllBelow base (d ∷ ds))
    (ends : Ends base rest) where
  abbrev digits : List ℕ
  digits = map digit_char (d ∷ ds) ++ rest

  first :
      (is_space (digit_char d) ≡ false)
      × ((digit_char d == b'+') ≡ false)
      × ((digit_char d == b'-') ≡ false)
  first = digit_char_plain d (omega (arith, all.0))

  skip_space-digits : skip_space digits ≡ digits
  unfolding skip_space
  skip_space-digits = rw (first.0)

  strtoul-at :
      value_from base 0 (d ∷ ds) < 2 ^ 32
      → strtoul digits base ≡ record { value = value_from base 0 (d ∷ ds); end = some rest }
  unfolding strtoul
  strtoul-at fits =
      rw (skip_space-digits, first.1, choose_base-plain base digits (ground arith) (ground arith))
        (accumulate-digits base 0 (d ∷ ds) rest two small all ends fits)

  -- In a base from 2 to 36 other than 16, `strtoul` of any spaces, at least one digit below the
  -- base, and a text that does not go on with such a digit gives the number that the digits stand
  -- for, if it fits 32 bits, and the text behind the last digit.
  pub strtoul-digits :
      value_from base 0 (d ∷ ds) < 2 ^ 32
      → strtoul (spaces ++ digits) base
        ≡ record { value = value_from base 0 (d ∷ ds); end = some rest }
  unfolding strtoul
  strtoul-digits fits =
      ap (λ t. strtoul_after t) (skip_space-append spaces digits space) ∙ strtoul-at fits
    where
      strtoul_after : List ℕ → Parsed
      strtoul_after t =
          let (b, digits) = choose_base base (drop_sign b'+' t) in accumulate b 0 digits

  -- In a base from 2 to 36 other than 16, `strtol` of any spaces, a minus sign and at least one
  -- digit of a number below 2 ^ 31, with no further digit behind, gives the 32-bit pattern of the
  -- negative number, and the text behind the last digit.
  pub strtol-negative :
      value_from base 0 (d ∷ ds) < abs_long_min
      → strtol (spaces ++ b'-' ∷ digits) base
        ≡ record { value = u32 (2 ^ 32 - value_from base 0 (d ∷ ds)); end = some rest }
  unfolding strtol
  strtol-negative fits =
      let small_value : leb abs_long_min (value_from base 0 (d ∷ ds)) ≡ false = ground arith in
      rw (
        skip_space-append spaces (b'-' ∷ digits) space,
        minus,
        strtoul-at (omega arith),
        small_value,
      )
    where
      minus : skip_space (b'-' ∷ digits) ≡ b'-' ∷ digits
      minus = unfold skip_space is_mask in refl
