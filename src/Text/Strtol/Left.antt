-- ===== src/Text/Strtol/Left.antt =====
-- The text that the conversions of src/lib/strtol.c leave.
use valeo.Base.{
  ℕ, ◌+◌, ◌*◌, ◌≤◌, ◌≡◌, refl, sym, ◌∙◌, arith, true, false, List, [], ◌∷◌, Option, none, some,
  ◌==◌, ltb, leb, ◌&&◌, length, get_or, Bool-cases, inl, inr,
}
use valeo.Text.Ctype.{is_digit, is_space}
use valeo.Text.Ctype.Ascii.{between, is_digit_lem, is_space_lem}
use valeo.Text.Strtol.{
  skip_space, accumulate, digit_value, choose_base, drop_sign, strtoul, strtol, u32, abs_long_min,
}
use valeo.Text.Strtol.Digits.{AllBelow}

-- What is left of a text is not longer, and all bytes.
abbrev pub Left : (n : ℕ) → List ℕ → Type 0
Left n fmt = (length fmt ≤ n) × AllBelow 256 fmt

pub Left-more : (n n' : ℕ) (fmt : List ℕ) → n ≤ n' → Left n fmt → Left n' fmt
Left-more n n' fmt more (shorter, all) = (omega arith, all)

abbrev pub LeftOption : (n : ℕ) → Option (List ℕ) → Type 0
LeftOption n none = Unit {0}
LeftOption n (some fmt) = Left n fmt

accumulate-Left :
    (base v n : ℕ) (text : List ℕ) → Left n text → LeftOption n (accumulate base v text).end
unfolding accumulate
accumulate-Left base v n [] h = h
accumulate-Left base v n (c ∷ text) (shorter, (byte, all)) =
    elim (Bool-cases (leb base (digit_value c))) [
      | inl stops ↦ rw stops (shorter, (byte, all))
      | inr digit ↦ elim (Bool-cases (ltb (u32 (v * base)) v)) [
        | inl over ↦ rw (digit, over) tt
        | inr fits ↦
            rw (digit, fits)
              (accumulate-Left base (u32 (u32 (v * base) + digit_value c)) n text
                (omega arith, all))
      ]
    ]

strtol-end :
    (text : List ℕ) → (strtol text 10).end ≡ (strtoul (drop_sign b'-' (skip_space text)) 10).end
unfolding strtol
strtol-end text =
    let r = strtoul (drop_sign b'-' (skip_space text)) 10 in
    elim (Bool-cases (leb abs_long_min r.value)) [
      | inl large ↦
          elim (Bool-cases (r.value == abs_long_min && get_or (skip_space text) 0 0 == b'-')) [
            | inl least ↦ rw (large, least) refl
            | inr other ↦ rw (large, other) refl
          ]
      | inr small ↦ rw small refl
    ]

skip_space-plain : (c : ℕ) (text : List ℕ) → is_space c ≡ false → skip_space (c ∷ text) ≡ c ∷ text
unfolding skip_space
skip_space-plain c text no_space = rw no_space refl

strtoul-plain :
    (c : ℕ) (text : List ℕ)
    → is_space c ≡ false
    → (c == b'+') ≡ false
    → strtoul (c ∷ text) 10 ≡ accumulate 10 0 (c ∷ text)
unfolding strtoul choose_base
strtoul-plain c text no_space no_plus = rw (skip_space-plain c text no_space, no_plus) refl

-- Behind a digit, less of the text is left.
pub strtol-Left :
    (c : ℕ) (text : List ℕ)
    → is_digit c ≡ true
    → AllBelow 256 (c ∷ text)
    → LeftOption (length text) (strtol (c ∷ text) 10).end
unfolding accumulate digit_value
strtol-Left c text digit (byte, all) =
    let range : between b'0' b'9' c ≡ true = sym (is_digit_lem c byte) ∙ digit in
    let no_space : is_space c ≡ false = is_space_lem c byte ∙ ground arith in
    let no_minus : (c == b'-') ≡ false = ground arith in
    let no_plus : (c == b'+') ≡ false = ground arith in
    let below : leb 10 (digit_value c) ≡ false = ground arith in
    let rest =
      accumulate-Left 10 (u32 (u32 (0 * 10) + digit_value c)) (length text) text
        (omega arith, all) in
    rw
      (
        strtol-end (c ∷ text),
        skip_space-plain c text no_space,
        no_minus,
        strtoul-plain c text no_space no_plus,
        below,
      )
      rest

pub skip_space-Left : (n : ℕ) (fmt : List ℕ) → Left n fmt → Left n (skip_space fmt)
unfolding skip_space
skip_space-Left n [] h = h
skip_space-Left n (c ∷ fmt) (shorter, (byte, all)) = elim (Bool-cases (is_space c)) [
  | inl space ↦ rw space (skip_space-Left n fmt (omega arith, all))
  | inr other ↦ rw other (shorter, (byte, all))
]
