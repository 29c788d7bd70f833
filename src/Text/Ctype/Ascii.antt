-- ===== src/Text/Ctype/Ascii.antt =====
-- What the table of src/lib/ctype.c says of each character, against the ranges of ASCII.
use valeo.Base.{
  ℕ, ◌+◌, ◌-◌, ◌<◌, ◌≡◌, refl, arith, Bool, true, ◌==◌, leb, ◌&&◌, ◌||◌, holds_below,
  holds_below_sound, iff, iff-eq, if◌then◌else◌,
}
use valeo.Text.Ctype.{is_mask, is_digit, is_space, to_lower, to_upper}

abbrev pub between : (lo hi c : ℕ) → Bool
between lo hi c = leb lo c && leb c hi

digit_table : holds_below 256 (λ c. iff (is_digit c) (between b'0' b'9' c)) ≡ true
unfolding holds_below is_mask
digit_table = refl

space_table :
    holds_below 256 (λ c. iff (is_space c) (between 9 13 c || (c == 32 || c == 160))) ≡ true
unfolding holds_below is_mask
space_table = refl

-- Of all 256 characters `isdigit` accepts exactly the ten digits.
pub is_digit_lem : (c : ℕ) → c < 256 → is_digit c ≡ between b'0' b'9' c
is_digit_lem c h = iff-eq _ _ (holds_below_sound 256 _ c h digit_table)

-- Of all 256 characters `isspace` accepts exactly the five from tab to carriage return, the space and
-- the no-break space.
pub is_space_lem : (c : ℕ) → c < 256 → is_space c ≡ (between 9 13 c || (c == 32 || c == 160))
is_space_lem c h = iff-eq _ _ (holds_below_sound 256 _ c h space_table)

case_table :
    holds_below 128 (λ c.
      (to_lower (to_upper c) == to_lower c)
      && ((to_lower c == (if between b'A' b'Z' c then c + 32 else c))
          && (to_upper c == (if between b'a' b'z' c then c - 32 else c))))
    ≡ true
unfolding holds_below is_mask to_lower to_upper
case_table = refl

-- Of the 128 characters of ASCII, `__tolower` moves exactly the capital letters, by 32 up, and
-- `__toupper` exactly the small letters, by 32 down, and `__tolower` takes back what `__toupper` did.
pub to_lower-to_upper :
    (c : ℕ)
    → c < 128
    → (to_lower (to_upper c) ≡ to_lower c)
      × (to_lower c ≡ (if between b'A' b'Z' c then c + 32 else c))
      × (to_upper c ≡ (if between b'a' b'z' c then c - 32 else c))
to_lower-to_upper c h = let row = holds_below_sound 128 _ c h case_table in ground (arith, row)
