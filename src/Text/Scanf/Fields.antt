-- ===== src/Text/Scanf/Fields.antt =====
-- The conversions of `__v_scanf` in src/lib/scanf.c to floating-point numbers, characters and strings. A
-- store is the address and the byte, in the order of the stores.
pub mod Word
use valeo.Base.{
  ℕ, zero, suc, ◌+◌, ◌-◌, ◌%◌, ◌^◌, Bool, true, false, List, [], ◌∷◌, Option, none, some, ◌||◌,
  if◌then◌else◌,
}
use valeo.Text.Ctype.{is_space, is_digit}
use valeo.Text.Scanf.{u32, Input, is, next_char, advance, skip_spaces}

-- The double that the loops compute, by the digits that they read: `whole` and `fraction`, then a
-- multiplication by 10, or by 0.1, for each unit of the exponent. `nought` is 0.0.
pub data Real : Type 0 where
  nought : Real
  decimal : (whole fraction : List ℕ) → Real
  scaled : (whole fraction : List ℕ) (down : Bool) (exponent : List ℕ) → Real

-- `while ( isdigit( tpch ) )`
pub scan_run : (tpch : Option ℕ) (str : List ℕ) (consumed : ℕ) → List ℕ × Input
scan_run none str consumed = ([], record { tpch = none; str = str; consumed = consumed })
scan_run (some c) [] consumed =
    if is_digit c
    then ((c - b'0') ∷ [], next_char [] consumed)
    else ([], record { tpch = some c; str = []; consumed = consumed })
scan_run (some c) (d ∷ str) consumed =
    let (digits, rest) = scan_run (some d) str (u32 (consumed + 1)) in
    if is_digit c
    then ((c - b'0') ∷ digits, rest)
    else ([], record { tpch = some c; str = d ∷ str; consumed = consumed })

abbrev pub run_from : Input → List ℕ × Input
run_from i = scan_run i.tpch i.str i.consumed

-- `A_PUTC` of a character, with `next` as the one read ahead
unfoldable pub put_back : (next : Option ℕ) → Input → Input
put_back next i = elim i.tpch [
  | none ↦ record i { tpch = next }
  | some c ↦ record { tpch = next; str = c ∷ i.str; consumed = u32 (i.consumed + 2 ^ 32 - 1) }
]

-- What follows an `e`: a sign and digits, or else the number is 0.
pub scan_exponent : (whole fraction : List ℕ) → Input → Real × Input
unfolding scan_run put_back
scan_exponent whole fraction i =
    let j = advance i in
    let (digits, rest) = run_from (advance j) in
    if is b'-' j.tpch
    then (scaled whole fraction true digits, rest)
    else if is b'+' j.tpch
    then (scaled whole fraction false digits, rest)
    else (nought, put_back i.tpch j)

-- The floating-point conversions. The sign is read and dropped, as the source has it.
pub scan_real : Input → Real × Input
unfolding skip_spaces scan_run scan_exponent
scan_real i =
    let a = skip_spaces i.tpch i.str i.consumed in
    let b = if is b'-' a.tpch then advance a else a in
    let c = if is b'+' b.tpch then advance b else b in
    let (whole, d) = run_from c in
    let (fraction, e) = if is b'.' d.tpch then run_from (advance d) else ([], d) in
    if is b'e' e.tpch || is b'E' e.tpch
    then scan_exponent whole fraction e
    else (decimal whole fraction, e)

-- The loop of the conversion `c`, with the characters that it stores from `s` on
pub scan_chars :
    (width s : ℕ) (tpch : Option ℕ) (str : List ℕ) (consumed : ℕ) → List (ℕ × ℕ) × Input
scan_chars width s none str consumed = ([], record { tpch = none; str = str; consumed = consumed })
scan_chars zero s (some c) str consumed =
    ([], record { tpch = some c; str = str; consumed = consumed })
scan_chars (suc width) s (some c) [] consumed = ((s, c % 2 ^ 8) ∷ [], next_char [] consumed)
scan_chars (suc width) s (some c) (d ∷ str) consumed =
    let (stores, rest) = scan_chars width (s + 1) (some d) str (u32 (consumed + 1)) in
    ((s, c % 2 ^ 8) ∷ stores, rest)

-- The loop of the conversion `s`, up to a space
pub scan_word : (width s : ℕ) (tpch : Option ℕ) (str : List ℕ) (consumed : ℕ) → List (ℕ × ℕ) × Input
scan_word width s none str consumed = ([], record { tpch = none; str = str; consumed = consumed })
scan_word zero s (some c) str consumed =
    ([], record { tpch = some c; str = str; consumed = consumed })
scan_word (suc width) s (some c) [] consumed =
    if is_space c
    then ([], record { tpch = some c; str = []; consumed = consumed })
    else ((s, c % 2 ^ 8) ∷ [], next_char [] consumed)
scan_word (suc width) s (some c) (d ∷ str) consumed =
    let (stores, rest) = scan_word width (s + 1) (some d) str (u32 (consumed + 1)) in
    if is_space c
    then ([], record { tpch = some c; str = d ∷ str; consumed = consumed })
    else ((s, c % 2 ^ 8) ∷ stores, rest)
