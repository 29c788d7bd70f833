-- ===== src/Text/Scanf/Integer.antt =====
-- `%d` of src/lib/scanf.c reads a run of digits.
use valeo.Base.{
  ℕ, suc, ◌+◌, ◌-◌, ◌*◌, ◌^◌, ◌≤◌, ◌<◌, ◌≡◌, refl, ap, ap₂, not, ◌∙◌, arith, Bool, true, false,
  List, [], ◌∷◌, ◌++◌, map, some, ◌==◌, ltb, leb, ◌&&◌, ◌||◌, if◌then◌else◌, holds_below,
  holds_below_sound, length,
}
use valeo.Text.Ctype.{is_space, is_mask}
use valeo.Text.Strtol.Digits.{
  value_from-le, le-mul_base, digit_char, digit_char_plain, value_from, AllBelow, AllSpace,
}
use valeo.Text.Scanf.{
  u32, Input, next_char, skip_spaces, find_base, digit, add_digit, scan_digits, base_of, signed,
  Scanned, scan_integer,
}

-- The two loops at an input.
abbrev pub spaces_from : Input → Input
spaces_from i = skip_spaces i.tpch i.str i.consumed

abbrev digits_from : (base v width : ℕ) → Input → ℕ × Input
digits_from base v width i = scan_digits base v width i.tpch i.str i.consumed

-- The text does not go on with a digit of the base.
abbrev pub EndsAt : ℕ → List ℕ → Type 0
EndsAt base [] = Unit {0}
EndsAt base (c ∷ text) = base ≤ digit c

skip-space :
    (c : ℕ) (str : List ℕ) (k : ℕ)
    → is_space c ≡ true
    → skip_spaces (some c) str k ≡ spaces_from (next_char str k)
unfolding skip_spaces
skip-space c [] k h = rw h refl
skip-space c (d ∷ str) k h = rw h refl

pub skip-plain :
    (c : ℕ) (str : List ℕ) (k : ℕ)
    → is_space c ≡ false
    → spaces_from (next_char (c ∷ str) k) ≡ next_char (c ∷ str) k
unfolding skip_spaces
skip-plain c [] k h = rw h refl
skip-plain c (d ∷ str) k h = rw h refl

skip_spaces-append :
    (spaces : List ℕ) (c : ℕ) (str : List ℕ) (k : ℕ)
    → AllSpace spaces
    → is_space c ≡ false
    → k + length spaces < 2 ^ 32
    → spaces_from (next_char (spaces ++ c ∷ str) k) ≡ next_char (c ∷ str) (k + length spaces)
skip_spaces-append [] c str k all plain small =
    skip-plain c str k plain ∙ ap (next_char (c ∷ str)) (omega arith)
skip_spaces-append (b ∷ spaces) c str k (here, all) plain small =
    let one : u32 (k + 1) ≡ k + 1 = omega arith in
    skip-space b (spaces ++ c ∷ str) (u32 (k + 1)) here
    ∙ ap (λ k. spaces_from (next_char (spaces ++ c ∷ str) k)) one
    ∙ skip_spaces-append spaces c str (k + 1) all plain (omega arith)
    ∙ ap (next_char (c ∷ str)) (omega arith)

digit_table : holds_below 36 (λ d. digit (digit_char d) == d) ≡ true
unfolding holds_below digit digit_char
digit_table = refl

digit-digit_char : (d : ℕ) → d < 36 → digit (digit_char d) ≡ d
digit-digit_char d h = ground (arith, holds_below_sound 36 _ d h digit_table)

add_digit-small :
    (base v d : ℕ)
    → 1 ≤ base
    → v * base + d < 2 ^ 32
    → v ≤ v * base
    → add_digit base v d ≡ v * base + d
unfolding add_digit
add_digit-small base v d some_base small grows = ground arith

scan_digits-digit :
    (base v width c : ℕ) (str : List ℕ) (k : ℕ)
    → 0 < width
    → digit c < base
    → scan_digits base v width (some c) str k
      ≡ digits_from base (add_digit base v (digit c)) (u32 (width + 2 ^ 32 - 1)) (next_char str k)
unfolding scan_digits
scan_digits-digit base v width c [] k room small =
    let goes_on : (width == 0 || leb base (digit c)) ≡ false = ground arith in rw goes_on refl
scan_digits-digit base v width c (d ∷ str) k room small =
    let goes_on : (width == 0 || leb base (digit c)) ≡ false = ground arith in rw goes_on refl

scan_digits-end :
    (base v width : ℕ) (rest : List ℕ) (k : ℕ)
    → EndsAt base rest
    → digits_from base v width (next_char rest k) ≡ (v, next_char rest k)
unfolding scan_digits
scan_digits-end base v width [] k ends = refl
scan_digits-end base v width (c ∷ []) k ends =
    let stops : (width == 0 || leb base (digit c)) ≡ true = ground arith in rw stops refl
scan_digits-end base v width (c ∷ (d ∷ rest)) k ends =
    let stops : (width == 0 || leb base (digit c)) ≡ true = ground arith in rw stops refl

scan_digits-append :
    (base v width : ℕ) (ds rest : List ℕ) (k : ℕ)
    → 2 ≤ base
    → base ≤ 36
    → AllBelow base ds
    → EndsAt base rest
    → value_from base v ds < 2 ^ 32
    → k + length ds < 2 ^ 32
    → length ds ≤ width
    → width < 2 ^ 32
    → digits_from base v width (next_char (map digit_char ds ++ rest) k)
      ≡ (value_from base v ds, next_char rest (k + length ds))
scan_digits-append base v width [] rest k two small all ends fits read room word =
    scan_digits-end base v width rest k ends ∙ ap (λ k. (v, next_char rest k)) (omega arith)
scan_digits-append base v width (d ∷ ds) rest k two small all ends fits read room word =
    let value = digit-digit_char d (omega (arith, all.0)) in
    let below = value_from-le base (v * base + d) ds (omega arith) in
    let text = map digit_char ds ++ rest in
    let here : add_digit base v d ≡ v * base + d =
      add_digit-small base v d (omega arith) (omega (arith, below))
        (le-mul_base v base (omega arith)) in
    let sum : add_digit base v (digit (digit_char d)) ≡ v * base + d =
      ap (add_digit base v) value ∙ here in
    let less : u32 (width + 2 ^ 32 - 1) ≡ width - 1 = omega arith in
    let one : u32 (k + 1) ≡ k + 1 = omega arith in
    scan_digits-digit base v width (digit_char d) text (u32 (k + 1)) (omega arith)
      (omega (arith, value, all.0))
    ∙ ap
        (λ k.
          digits_from base (add_digit base v (digit (digit_char d))) (u32 (width + 2 ^ 32 - 1))
            (next_char text k))
        one
    ∙ ap (λ x. digits_from base x (u32 (width + 2 ^ 32 - 1)) (next_char text (k + 1))) sum
    ∙ ap (λ w. digits_from base (v * base + d) w (next_char text (k + 1))) less
    ∙ scan_digits-append base (v * base + d) (width - 1) ds rest (k + 1) two small all.1 ends fits
        (omega arith) (omega arith) (omega arith)
    ∙ ap (λ k. (value_from base (v * base + d) ds, next_char rest k)) (omega arith)

next_char-consumed : (str : List ℕ) (k : ℕ) → (next_char str k).consumed ≡ u32 (k + 1)
next_char-consumed [] k = refl
next_char-consumed (c ∷ str) k = refl

more-consumed :
    (a b : List ℕ) (k k' : ℕ)
    → k < k'
    → k' + 1 < 2 ^ 32
    → ltb (next_char a k).consumed (next_char b k').consumed ≡ true
more-consumed a b k k' later small =
    let less : u32 (k + 1) < u32 (k' + 1) = omega arith in
    rw (next_char-consumed a k, next_char-consumed b k') (ground arith)

abbrev scanned : ℕ → Bool → Input → Scanned
scanned v c i = record { value = v; counted = c; input = i }

minus_plain : is_space b'-' ≡ false
unfolding is_mask
minus_plain = refl

-- The source keeps 2 ^ 31, which is its own negative.
negated :
    (v : ℕ)
    → v ≤ 2 ^ 31
    → (if not (leb (2 ^ 31) v) && true then u32 (2 ^ 32 - v) else v) ≡ u32 (2 ^ 32 - v)
negated v fits = ground arith

module _ (spaces : List ℕ) (d : ℕ) (ds rest : List ℕ) (k : ℕ) (space : AllSpace spaces)
    (all : AllBelow 10 (d ∷ ds)) (ends : EndsAt 10 rest) where
  abbrev value : ℕ
  value = value_from 10 0 (d ∷ ds)

  abbrev digits : List ℕ
  digits = map digit_char (d ∷ ds) ++ rest

  digits_read :
      (k : ℕ)
      → value < 2 ^ 32
      → k + suc (length ds) + 1 < 2 ^ 32
      → digits_from 10 0 0xffffffff (next_char digits k)
        ≡ (value, next_char rest (k + suc (length ds)))
  digits_read k fits read =
      scan_digits-append 10 0 0xffffffff (d ∷ ds) rest k (omega arith) (omega arith) all ends
        (omega arith) (omega arith) (omega arith) (omega arith)

  pub scan_integer-positive :
      value < 2 ^ 31
      → k + length spaces + suc (length ds) + 1 < 2 ^ 32
      → scan_integer b'd' false 0xffffffff (next_char (spaces ++ digits) k) ≡ record {
        value = value;
        counted = true;
        input = next_char rest (k + length spaces + suc (length ds));
      }
  unfolding scan_integer find_base base_of signed
  scan_integer-positive fits read =
      let (plain, no_plus, no_minus) = digit_char_plain d (omega (arith, all.0)) in
      let skipped =
        skip_spaces-append spaces (digit_char d) (map digit_char ds ++ rest) k space plain
          (omega arith) in
      let run = digits_read (k + length spaces) (omega arith) read in
      let counted : ltb (next_char (spaces ++ digits) k).consumed
            (next_char rest (k + length spaces + suc (length ds))).consumed
          ≡ true =
        more-consumed (spaces ++ digits) rest k (k + length spaces + suc (length ds)) (omega arith)
          (omega arith) in
      let same : (if not (leb (2 ^ 31) value) && false then u32 (2 ^ 32 - value) else value)
          ≡ value =
        ground arith in
      rw (skipped, no_minus, no_plus, run)
        (ap₂ (λ v c. scanned v c (next_char rest (k + length spaces + suc (length ds)))) same
          counted)

  pub scan_integer-negative :
      value ≤ 2 ^ 31
      → k + length spaces + suc (length ds) + 2 < 2 ^ 32
      → scan_integer b'd' false 0xffffffff (next_char (spaces ++ b'-' ∷ digits) k) ≡ record {
        value = u32 (2 ^ 32 - value);
        counted = true;
        input = next_char rest (k + length spaces + 1 + suc (length ds));
      }
  unfolding scan_integer find_base base_of signed
  scan_integer-negative fits read =
      let (plain, no_plus, no_minus) = digit_char_plain d (omega (arith, all.0)) in
      let skipped = skip_spaces-append spaces b'-' digits k space minus_plain (omega arith) in
      let one : u32 (k + length spaces + 1) ≡ k + length spaces + 1 = omega arith in
      let run = digits_read (k + length spaces + 1) (omega arith) (omega arith) in
      let counted : ltb (next_char (spaces ++ b'-' ∷ digits) k).consumed
            (next_char rest (k + length spaces + 1 + suc (length ds))).consumed
          ≡ true =
        more-consumed (spaces ++ b'-' ∷ digits) rest k (k + length spaces + 1 + suc (length ds))
          (omega arith) (omega arith) in
      let same : (if not (leb (2 ^ 31) value) && true then u32 (2 ^ 32 - value) else value)
          ≡ u32 (2 ^ 32 - value) =
        negated value fits in
      rw (skipped, no_plus, one, run)
        (ap₂ (λ v c. scanned v c (next_char rest (k + length spaces + 1 + suc (length ds)))) same
          counted)

  -- `%d` without a width reads any spaces, a minus sign or none, at least one decimal digit of a number
  -- below 2 ^ 31, and no further digit, where fewer than 2 ^ 32 - 2 characters are read in all. The
  -- value is the number, or the 32-bit pattern of its negative, and the input goes on behind the last
  -- digit.
  pub scan_integer-digits :
      value < 2 ^ 31
      → k + length spaces + suc (length ds) + 2 < 2 ^ 32
      → (scan_integer b'd' false 0xffffffff (next_char (spaces ++ digits) k) ≡ record {
        value = value;
        counted = true;
        input = next_char rest (k + length spaces + suc (length ds));
      })
        × (scan_integer b'd' false 0xffffffff (next_char (spaces ++ b'-' ∷ digits) k) ≡ record {
          value = u32 (2 ^ 32 - value);
          counted = true;
          input = next_char rest (k + length spaces + 1 + suc (length ds));
        })
  scan_integer-digits fits read =
      (scan_integer-positive fits (omega arith), scan_integer-negative (omega arith) read)
