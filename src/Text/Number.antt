-- ===== src/Text/Number.antt =====
-- `number` of src/lib/printf.c with the macro `do_div`. The number is the bit pattern of a long long.
-- A width or a precision below 0 pads like one of 0, so both are counted from 0.
pub mod Value
pub mod Layout
use valeo.Base.{
  ℕ, zero, suc, ◌+◌, ◌-◌, ◌*◌, ◌/◌, ◌%◌, ◌^◌, Bool, true, false, List, [], ◌∷◌, ◌++◌, Option, none,
  some, not, ◌==◌, ltb, leb, ◌&&◌, ◌||◌, if◌then◌else◌, replicate, length, max,
}
use valeo.Base.Run.{update}

-- The bits of `type`
pub record Flags : Type 0 where
  pub zero_pad : Bool
  pub sign : Bool
  pub plus : Bool
  pub space : Bool
  pub left : Bool
  pub special : Bool
  pub large : Bool

-- The buffer and the place to write next, a pointer of 32 bits. A write beyond `end` only moves the
-- place.
pub record Out : Type 0 where
  pub buf : ℕ → ℕ
  pub at : ℕ

pub put : (end c : ℕ) → Out → Out
put end c o = record {
  buf = if leb o.at end then update o.buf o.at c else o.buf;
  at = (o.at + 1) % 2 ^ 32;
}

pub put_all : (end : ℕ) → List ℕ → Out → Out
unfolding put
put_all end [] o = o
put_all end (c ∷ text) o = put_all end text (put end c o)

-- `do_div`: the quotient, and the remainder as the result; two divisions of at most 64 bits by 32.
pub do_div : (n base : ℕ) → ℕ × ℕ
do_div n base =
    let high = n / 2 ^ 32 in
    let low = n % 2 ^ 32 in
    let upper = if high == 0 then high else high % base in
    let high' = if high == 0 then high else high / base in
    ((upper * 2 ^ 32 + low) / base + high' * 2 ^ 32, (upper * 2 ^ 32 + low) % base)

-- `digits[ d ]`
pub digit_char : (large : Bool) (d : ℕ) → ℕ
digit_char large d = if ltb d 10 then b'0' + d else (if large then b'A' else b'a') + (d - 10)

-- The loop that fills `tmp`, the digit stored last in front.
unfoldable pub digits_loop : (fuel n base : ℕ) (large : Bool) → List ℕ → List ℕ
unfolding do_div digit_char
digits_loop zero n base large tmp = tmp
digits_loop (suc fuel) n base large tmp =
    let rest =
      digits_loop fuel (do_div n base).0 base large (digit_char large (do_div n base).1 ∷ tmp) in
    if n == 0 then tmp else rest

-- 64 rounds are enough for a number of 64 bits in a base of 2 or more.
unfoldable pub digits : (n base : ℕ) (large : Bool) → List ℕ
digits n base large = if n == 0 then b'0' ∷ [] else digits_loop 64 n base large []

-- The sign character, if any, and the absolute value.
unfoldable pub sign_of : (num : ℕ) → Flags → List ℕ × ℕ
sign_of num f =
    if f.sign
    then (if leb (2 ^ 63) num
        then (b'-' ∷ [], (2 ^ 64 - num) % 2 ^ 64)
        else if f.plus
        then (b'+' ∷ [], num)
        else if f.space
        then (b' ' ∷ [], num)
        else ([], num))
    else ([], num)

-- The prefix of the alternative form; `digits[ 33 ]` is an x in the case of the digits.
unfoldable pub prefix_of : (base : ℕ) → Flags → List ℕ
unfolding digit_char
prefix_of base f =
    if f.special
    then (if base == 16
        then b'0' ∷ digit_char f.large 33 ∷ []
        else if base == 8
        then b'0' ∷ []
        else [])
    else []

-- `number`; `none` is the null pointer that it returns for a base out of range.
pub number : (end num base size precision : ℕ) → Flags → Out → Option Out
unfolding put_all digits sign_of prefix_of
number end num base size precision f o =
    if ltb base 2 || ltb 36 base
    then none
    else (let zero_pad = f.zero_pad && not f.left in
        let (sign, n) = sign_of num f in
        let prefix = prefix_of base f in
        let tmp = digits n base f.large in
        let i = length tmp in
        let precision' = max i precision in
        let size' = size - length sign - length prefix - precision' in
        let before = if not zero_pad && not f.left then size' else 0 in
        let o = put_all end (replicate before b' ') o in
        let o = put_all end sign o in
        let o = put_all end prefix o in
        let middle = if f.left then 0 else size' - before in
        let o = put_all end (replicate middle (if zero_pad then b'0' else b' ')) o in
        let o = put_all end (replicate (precision' - i) b'0') o in
        let o = put_all end tmp o in
        some (put_all end (replicate (size' - before - middle) b' ') o))
