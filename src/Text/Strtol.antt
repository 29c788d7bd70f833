-- ===== src/Text/Strtol.antt =====
-- src/lib/strtol.c. `long` has 32 bits; a result of `strtol` is the bit pattern of a long. The pointer
-- that is stored through `endptr` is the text that is left, or `none` where nothing is stored.
pub mod Digits
pub mod Left
use valeo.Base.{
  ℕ, zero, suc, ◌+◌, ◌-◌, ◌*◌, ◌%◌, ◌^◌, Bool, true, false, List, [], ◌∷◌, Option, none, some, ◌==◌,
  ltb, leb, ◌&&◌, ◌||◌, not, if◌then◌else◌, get_or,
}
use valeo.Text.Ctype.{is_space}

abbrev pub u32 : ℕ → ℕ
u32 n = n % 2 ^ 32

-- `ABS_LONG_MIN` of include/lib/limits.h
abbrev pub abs_long_min : ℕ
abs_long_min = 2147483648

pub record Parsed : Type 0 where
  pub value : ℕ
  pub end : Option (List ℕ)

-- `while ( isspace( *nptr ) ) ++nptr;`
pub skip_space : List ℕ → List ℕ
skip_space [] = []
skip_space (c ∷ text) = let rest = skip_space text in if is_space c then rest else c ∷ text

-- The value of a character as a digit, in an unsigned char.
unfoldable pub digit_value : ℕ → ℕ
digit_value c =
    if leb b'a' c
    then (c - b'a' + 10) % 2 ^ 8
    else if leb b'A' c
    then (c - b'A' + 10) % 2 ^ 8
    else if leb c b'9'
    then (c + 256 - b'0') % 2 ^ 8
    else 0xff

-- The loop of `strtoul`.
pub accumulate : (base v : ℕ) → List ℕ → Parsed
unfolding digit_value
accumulate base v [] = record { value = v; end = some [] }
accumulate base v (c ∷ text) =
    let d = digit_value c in
    let w = u32 (v * base) in
    let rest = accumulate base (u32 (w + d)) text in
    if leb base d
    then record { value = v; end = some (c ∷ text) }
    else if ltb w v
    then record { value = 0; end = none }
    else rest

-- The code at the label `skip0x`: the base and the text after a prefix `0x`.
pub skip_0x : (base : ℕ) → List ℕ → ℕ × List ℕ
skip_0x base (z ∷ (x ∷ text)) =
    if x == b'x' || x == b'X' then (16, text) else (base, z ∷ (x ∷ text))
skip_0x base text = (base, text)

-- The choice of the base from the argument and the text.
pub choose_base : (base : ℕ) → List ℕ → ℕ × List ℕ
unfolding skip_0x
choose_base base text =
    let first = get_or text 0 0 in
    if base == 16 && first == b'0'
    then skip_0x base text
    else if base == 0
    then (if first == b'0' then skip_0x 8 text else (10, text))
    else (base, text)

abbrev pub drop_sign : (sign : ℕ) → List ℕ → List ℕ
drop_sign sign [] = []
drop_sign sign (c ∷ text) = if c == sign then text else c ∷ text

pub strtoul : List ℕ → (base : ℕ) → Parsed
unfolding skip_space choose_base accumulate
strtoul text base =
    let (b, digits) = choose_base base (drop_sign b'+' (skip_space text)) in accumulate b 0 digits

pub strtol : List ℕ → (base : ℕ) → Parsed
strtol text base =
    let start = skip_space text in
    let neg = get_or start 0 0 == b'-' in
    let r = strtoul (drop_sign b'-' start) base in
    let v = r.value in
    if leb abs_long_min v
    then (if v == abs_long_min && neg then r else record r { value = 0 })
    else record r { value = if neg then u32 (2 ^ 32 - v) else v }
