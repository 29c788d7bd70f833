-- ===== src/Text/Printf.antt =====
-- `vsnprintf` of src/lib/printf.c. Memory is a function from addresses to bytes, of which `Out` has the
-- part that is written. `string_at` gives the string at an address, up to its
-- terminating 0, which does not lie in the buffer.
pub mod Render
pub mod Bounded
use valeo.Base.{
  ℕ, zero, suc, ◌+◌, ◌-◌, ◌*◌, ◌/◌, ◌%◌, ◌^◌, Bool, true, false, List, [], ◌∷◌, ◌++◌, Option, none,
  some, not, ◌==◌, ltb, leb, ◌&&◌, ◌||◌, if◌then◌else◌, replicate, length, take, drop,
}
use valeo.Base.Run.{update}
use valeo.Text.Number.{Flags, Out, put, put_all, number}
use valeo.Text.Directive.{u32, unset, count_of, Scan, here, scan, integer}

-- The output so far, the words used, and the stores of `%n`, the last one first.
pub record Printer : Type 0 where
  pub out : Out
  pub arg : ℕ
  pub stores : List (ℕ × ℕ)

-- A base out of range would give the null pointer.
pub number_or : Option Out → Out → Out
number_or none o = record o { at = 0 }
number_or (some o') o = o'

-- `strnlen`
pub strnlen : List ℕ → (count : ℕ) → ℕ
strnlen [] count = 0
strnlen (c ∷ text) zero = 0
strnlen (c ∷ text) (suc count) = suc (strnlen text count)

-- The string of the case `s`; 0 is the null pointer.
pub string_of : (string_at : ℕ → List ℕ) → ℕ → List ℕ
string_of string_at p = if p == 0 then b'<' ∷ b'N' ∷ b'U' ∷ b'L' ∷ b'L' ∷ b'>' ∷ [] else string_at p

-- `flags |= SIGN` and `flags |= LARGE`
abbrev pub signed : Scan → Scan
signed s = record s { flags = record (s.flags) { sign = true } }

abbrev pub large : Scan → Scan
large s = record s { flags = record (s.flags) { large = true } }

-- Two ints, as bit patterns, compare as these natural numbers do.
abbrev pub biased : ℕ → ℕ
biased x = u32 (x + 2 ^ 31)

module _ (args : ℕ → ℕ) (string_at : ℕ → List ℕ) (buf end : ℕ) where
  -- The case `c`
  pub print_char : Scan → Out → Out
  print_char s o =
      let spaces = replicate (count_of s.width - 1) b' ' in
      let o = put_all end (if s.flags.left then [] else spaces) o in
      let o = put end (args s.arg % 2 ^ 8) o in put_all end (if s.flags.left then spaces else []) o

  -- The case `s`, where `len` and the field width are ints as bit patterns
  pub print_string : Scan → Out → Out
  unfolding string_of strnlen
  print_string s o =
      let text = string_of string_at (args s.arg) in
      let len = u32 (strnlen text s.precision) in
      let spaces = replicate (biased s.width - biased len) b' ' in
      let o = put_all end (if s.flags.left then [] else spaces) o in
      let o = put_all end (take (count_of len) text) o in
      put_all end (if s.flags.left then spaces else []) o

  -- The case `p`
  pub print_pointer : Scan → Out → Out
  unfolding number_or
  print_pointer s o =
      let zeros = s.width == unset in
      let width = if zeros then 8 else s.width in
      let flags = if zeros then record (s.flags) { zero_pad = true } else s.flags in
      number_or (number end (args s.arg) 16 (count_of width) (count_of s.precision) flags o) o

  -- The integer conversions.
  pub print_integer : (base : ℕ) → Scan → Printer → Printer
  unfolding number_or
  print_integer base s p =
      let (num, words) = integer args s in
      record p {
        arg = s.arg + words;
        out =
            number_or (number end num base (count_of s.width) (count_of s.precision) s.flags p.out)
              p.out;
      }

  -- The `switch` on the conversion.
  pub convert : Scan → Printer → Printer
  unfolding print_char print_string print_pointer print_integer
  convert s p =
      let c = here s in
      if c == b'c'
      then record p { out = print_char s p.out; arg = s.arg + 1 }
      else if c == b's'
      then record p { out = print_string s p.out; arg = s.arg + 1 }
      else if c == b'p'
      then record p { out = print_pointer s p.out; arg = s.arg + 1 }
      else if c == b'n'
      then record p {
        stores = (args s.arg, u32 (p.out.at + 2 ^ 32 - buf)) ∷ p.stores;
        arg = s.arg + 1;
      }
      else if c == b'%'
      then record p { out = put end b'%' p.out; arg = s.arg }
      else if c == b'o'
      then print_integer 8 s p
      else if c == b'X'
      then print_integer 16 (large s) p
      else if c == b'x'
      then print_integer 16 s p
      else if c == b'd' || c == b'i'
      then print_integer 10 (signed s) p
      else if c == b'u'
      then print_integer 10 s p
      else (let o = put end b'%' p.out in
          record p { out = if length s.fmt == 0 then o else put end c o; arg = s.arg })

  -- The loop over the format; `none` means that the fuel ran out.
  pub format : (fuel : ℕ) → List ℕ → Printer → Option Printer
  unfolding convert
  format zero fmt p = none
  format (suc fuel) [] p = some p
  format (suc fuel) (c ∷ fmt) p =
      let plain = format fuel fmt (record p { out = put end c p.out }) in
      let s = scan args fmt p.arg in
      let rest = format fuel (drop 1 s.fmt) (convert s p) in if c == b'%' then rest else plain

-- What `vsnprintf` leaves: memory, its result, and the stores of `%n`.
pub record Printed : Type 0 where
  pub mem : ℕ → ℕ
  pub count : ℕ
  pub stores : List (ℕ × ℕ)

-- The terminating 0, at the place of the next byte or at the end of the buffer.
pub terminate : (end size : ℕ) → Out → ℕ → ℕ
terminate end size o =
    if leb o.at end then update o.buf o.at 0 else if ltb 0 size then update o.buf end 0 else o.buf

-- The code behind the loop.
pub finish : (buf end size : ℕ) → Option Printer → Option Printed
unfolding terminate
finish buf end size none = none
finish buf end size (some p) = some (record {
  mem = terminate end size p.out;
  count = u32 (p.out.at + 2 ^ 32 - buf);
  stores = p.stores;
})

-- `vsnprintf` and `snprintf`. The loop has a round for each byte of the format and one more.
pub vsnprintf :
    (args : ℕ → ℕ) (string_at : ℕ → List ℕ) (buf size : ℕ) (fmt : List ℕ) (mem : ℕ → ℕ)
    → Option Printed
unfolding format finish
vsnprintf args string_at buf size fmt mem =
    let last = u32 (buf + size + 2 ^ 32 - 1) in
    let wraps = ltb last (u32 (buf + 2 ^ 32 - 1)) in
    let end = if wraps then 2 ^ 32 - 1 else last in
    let size = if wraps then 2 ^ 32 - buf else size in
    let start : Printer = record { out = record { buf = mem; at = buf }; arg = 0; stores = [] } in
    finish buf end size (format args string_at buf end (suc (length fmt)) fmt start)
