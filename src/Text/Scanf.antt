-- ===== src/Text/Scanf.antt =====
-- The integer conversions of `__v_scanf` in src/lib/scanf.c, over the string that `sgetc` reads. `tpch` is
-- the character read ahead, and `none` is -1, the end of the string; no byte of the string is 0.
pub mod Integer
pub mod Fields
pub mod Format
use valeo.Base.{
  ℕ, zero, suc, ◌+◌, ◌-◌, ◌*◌, ◌%◌, ◌^◌, Bool, true, false, List, [], ◌∷◌, Option, none, some, ◌==◌,
  ltb, leb, ◌&&◌, ◌||◌, not, if◌then◌else◌, bit_or,
}
use valeo.Text.Ctype.{is_space}

abbrev pub u32 : ℕ → ℕ
u32 n = n % 2 ^ 32

pub record Input : Type 0 where
  pub tpch : Option ℕ
  pub str : List ℕ
  pub consumed : ℕ

-- `tpch == c`
abbrev pub is : ℕ → Option ℕ → Bool
is c none = false
is c (some b) = b == c

abbrev pub space : Option ℕ → Bool
space none = false
space (some b) = is_space b

-- `A_GETC` with `sgetc`
abbrev pub next_char : List ℕ → ℕ → Input
next_char [] consumed = record { tpch = none; str = []; consumed = u32 (consumed + 1) }
next_char (c ∷ str) consumed = record { tpch = some c; str = str; consumed = u32 (consumed + 1) }

abbrev pub advance : Input → Input
advance i = next_char i.str i.consumed

-- `while ( isspace( tpch ) )`
pub skip_spaces : (tpch : Option ℕ) (str : List ℕ) (consumed : ℕ) → Input
skip_spaces tpch [] consumed =
    if space tpch
    then next_char [] consumed
    else record { tpch = tpch; str = []; consumed = consumed }
skip_spaces tpch (c ∷ str) consumed =
    let rest = skip_spaces (some c) str (u32 (consumed + 1)) in
    if space tpch then rest else record { tpch = tpch; str = c ∷ str; consumed = consumed }

-- The code at the label `scan_hex`, with the base that stays if there is no x.
pub scan_hex : (base : ℕ) → Input → ℕ × Input
scan_hex base i =
    let j = advance i in if is b'x' j.tpch || is b'X' j.tpch then (16, advance j) else (base, j)

-- The base, 0 if it is still to be found.
pub find_base : (base : ℕ) → Input → ℕ × Input
unfolding scan_hex
find_base base i =
    if base == 16 && is b'0' i.tpch
    then scan_hex 16 i
    else if base == 0
    then (if is b'0' i.tpch then scan_hex 8 i else (10, i))
    else (base, i)

-- The value of a character as a digit.
unfoldable pub digit : ℕ → ℕ
digit c =
    let d = bit_or c 0x20 in
    if leb b'a' d then u32 (d - b'a' + 10) else if leb c b'9' then u32 (c + 2 ^ 32 - b'0') else 0xff

-- `v` behind one more digit.
pub add_digit : (base v c : ℕ) → ℕ
add_digit base v c = let d = u32 (v * base) in if ltb d v then 0xffffffff else u32 (d + c)

-- The loop over the digits; `width` counts down from -1 if there is none.
pub scan_digits : (base v width : ℕ) (tpch : Option ℕ) (str : List ℕ) (consumed : ℕ) → ℕ × Input
unfolding digit add_digit
scan_digits base v width none str consumed =
    (v, record { tpch = none; str = str; consumed = consumed })
scan_digits base v width (some c) [] consumed =
    if width == 0 || leb base (digit c)
    then (v, record { tpch = some c; str = []; consumed = consumed })
    else (add_digit base v (digit c), next_char [] consumed)
scan_digits base v width (some c) (d ∷ str) consumed =
    let rest =
      scan_digits base (add_digit base v (digit c)) (u32 (width + 2 ^ 32 - 1)) (some d) str
        (u32 (consumed + 1)) in
    if width == 0 || leb base (digit c)
    then (v, record { tpch = some c; str = d ∷ str; consumed = consumed })
    else rest

-- `_div` for a conversion
pub base_of : (ch : ℕ) → ℕ
base_of ch =
    if ch == b'p' || ch == b'X' || ch == b'x'
    then 16
    else if ch == b'd'
    then 10
    else if ch == b'o'
    then 8
    else 0

-- The sign, for the conversions d, i and o.
pub signed : (ch : ℕ) (neg : Bool) (v : ℕ) → ℕ
signed ch neg v =
    if ltb (bit_or ch 0x20) b'p' && not (leb (2 ^ 31) v) && neg then u32 (2 ^ 32 - v) else v

-- What a conversion finds: the value, whether it has read anything, and the input behind it.
pub record Scanned : Type 0 where
  pub value : ℕ
  pub counted : Bool
  pub input : Input

-- An integer conversion; `flag_width` says whether the directive has a width.
pub scan_integer : (ch : ℕ) (flag_width : Bool) (width : ℕ) → Input → Scanned
unfolding skip_spaces find_base scan_digits base_of signed
scan_integer ch flag_width width i =
    let a = skip_spaces i.tpch i.str i.consumed in
    let neg = is b'-' a.tpch in
    let b = if neg then advance a else a in
    let c = if is b'+' b.tpch then advance b else b in
    let (base, d) = if flag_width then (base_of ch, c) else find_base (base_of ch) c in
    let (v, e) = scan_digits base 0 width d.tpch d.str d.consumed in
    record { value = signed ch neg v; counted = ltb i.consumed e.consumed; input = e }
