-- ===== src/Text/Scanf/Format.antt =====
-- The loop of `__v_scanf` in src/lib/scanf.c over the format, and `vsscanf`. `args` gives the pointers on
-- the stack behind the format; what they point to does not overlap the string and the format.
pub mod Total
pub mod Decimal
pub mod Word
use valeo.Base.{
  ℕ, zero, suc, ◌+◌, ◌-◌, ◌*◌, ◌%◌, ◌^◌, Bool, true, false, List, [], ◌∷◌, ◌++◌, Option, none, some,
  ◌==◌, ltb, leb, ◌&&◌, ◌||◌, not, if◌then◌else◌, length,
}
use valeo.Text.Ctype.{is_digit}
use valeo.Text.Strtol.{strtol, skip_space}
use valeo.Text.Scanf.{u32, Input, is, next_char, advance, skip_spaces, Scanned, scan_integer}
use valeo.Text.Scanf.Fields.{Real, put_back, scan_real, scan_chars, scan_word}

abbrev pub no_width : ℕ
no_width = 0xffffffff

-- A store through one of the pointers: an int or a long, a short, a byte, a double or a float.
pub data Store : Type 0 where
  word half byte : (addr value : ℕ) → Store
  double float : (addr : ℕ) → Real → Store

-- The variables of `__v_scanf` besides the format: the pointers used so far, and `n`.
pub record State : Type 0 where
  pub input : Input
  pub arg : ℕ
  pub n : ℕ
  pub stores : List Store

-- How a call ends: with its result, or where the behaviour of the code is undefined.
pub data Outcome : Type 0 where
  ended : (ret : ℕ) → State → Outcome
  undefined out_of_fuel : Outcome

-- The variables of one directive; `ch` is 0 at the end of the format.
pub record Directive : Type 0 where
  pub ch : ℕ
  pub fmt : List ℕ
  pub width : ℕ
  pub flag_width : Bool
  pub discard : Bool
  pub half : Bool
  pub long : Bool

abbrev pub plain : (ch : ℕ) → List ℕ → Directive
plain ch fmt = record {
  ch = ch;
  fmt = fmt;
  width = no_width;
  flag_width = false;
  discard = false;
  half = false;
  long = false;
}

-- A directive that is read, or a width that is no long: `s` is then not set, and `format` lost.
pub data Parsed : Type 0 where
  got : Directive → Parsed
  lost dry : Parsed

abbrev pub is_flag : ℕ → Bool
is_flag c = c == b'*' || c == b'h' || c == b'l' || c == b'q' || c == b'L'

pub set_flag : ℕ → Directive → Directive
set_flag c d =
    if c == b'*'
    then record d { discard = true }
    else if c == b'h'
    then record d { half = true }
    else if c == b'l'
    then record d { long = true }
    else d

-- The code at the label `in_scan`, up to the conversion; `dry` means that the fuel ran out.
pub read_directive : (fuel : ℕ) → List ℕ → Directive → Parsed
unfolding set_flag
read_directive zero fmt d = dry
read_directive (suc fuel) [] d = got (record d { ch = 0; fmt = [] })
read_directive (suc fuel) (c ∷ fmt) d =
    let flagged = read_directive fuel fmt (set_flag c d) in
    let number = strtol (c ∷ fmt) 10 in
    let wide : Parsed = elim number.end [
      | none ↦ lost
      | some rest ↦ read_directive fuel rest (record d { width = number.value; flag_width = true })
    ] in
    if is_flag c then flagged else if is_digit c then wide else got (record d { ch = c; fmt = fmt })

-- The code at the label `err_out`. Behind it nothing reads the input, so that putting back the end of the
-- string has no effect.
pub finish : State → Outcome
unfolding put_back
finish s = elim s.input.tpch [
  | none ↦ if s.n == 0 then ended 0xffffffff s else ended s.n s
  | some c ↦ ended s.n (record s { input = put_back none s.input })
]

-- A conversion that is done, or the end of the call.
pub data Step : Type 0 where
  go : State → Step
  stop : Outcome → Step

-- The spaces that a format may have
abbrev pub is_blank : ℕ → Bool
is_blank c = c == b' ' || c == 12 || c == b'\t' || c == 11 || c == b'\n' || c == b'\r'

abbrev pub is_integer : ℕ → Bool
is_integer c =
    c == b'p' || c == b'X' || c == b'x' || c == b'd' || c == b'o' || c == b'u' || c == b'i'

abbrev pub is_real : ℕ → Bool
is_real c = c == b'e' || c == b'E' || c == b'f' || c == b'g'

-- The bytes from `scan_chars` or `scan_word`
abbrev pub bytes : List (ℕ × ℕ) → List Store
bytes [] = []
bytes ((p, c) ∷ rest) = byte p c ∷ bytes rest

module _ (args : ℕ → ℕ) where
  pub convert_integer : Directive → State → State
  convert_integer d s =
      let r = scan_integer d.ch d.flag_width d.width s.input in
      let p = args s.arg in
      let stored = if not d.long && d.half then half p (r.value % 2 ^ 16) else word p r.value in
      if d.discard then record s { input = r.input } else record s {
        input = r.input;
        arg = s.arg + 1;
        stores = s.stores ++ stored ∷ [];
        n = if r.counted then s.n + 1 else s.n;
      }

  -- A number that is discarded counts here.
  pub convert_real : Directive → State → State
  convert_real d s =
      let (x, i) = scan_real s.input in
      let p = args s.arg in
      let stored = if d.long then double p x else float p x in
      if d.discard
      then record s { input = i; n = s.n + 1 }
      else record s { input = i; arg = s.arg + 1; stores = s.stores ++ stored ∷ []; n = s.n + 1 }

  pub convert_chars : Directive → State → State
  convert_chars d s =
      let width = if d.flag_width then d.width else 1 in
      let (chars, i) = scan_chars width (args s.arg) s.input.tpch s.input.str s.input.consumed in
      if d.discard
      then record s { input = i }
      else record s { input = i; arg = s.arg + 1; stores = s.stores ++ bytes chars; n = s.n + 1 }

  pub convert_word : Directive → State → State
  convert_word d s =
      let a = skip_spaces s.input.tpch s.input.str s.input.consumed in
      let p = args s.arg in
      let (chars, i) = scan_word d.width p a.tpch a.str a.consumed in
      if d.discard then record s { input = i } else record s {
        input = i;
        arg = s.arg + 1;
        stores = (s.stores ++ bytes chars) ++ byte (p + length chars) 0 ∷ [];
        n = s.n + 1;
      }

  -- `n` stores one byte.
  pub convert_consumed : Directive → State → State
  convert_consumed d s =
      let consumed = u32 (s.input.consumed + 2 ^ 32 - 1) in
      if d.discard then s else record s {
        arg = s.arg + 1;
        stores = s.stores ++ byte (args s.arg) (consumed % 2 ^ 8) ∷ [];
      }

  -- The `switch` on the conversion.
  pub convert : Directive → State → Step
  unfolding convert_integer convert_real convert_chars convert_word convert_consumed finish
  convert d s =
      if d.ch == 0
      then stop (ended 0 s)
      else if d.ch == b'%'
      then (if is b'%' s.input.tpch
          then go (record s { input = advance s.input })
          else stop (finish s))
      else if is_integer d.ch
      then go (convert_integer d s)
      else if is_real d.ch
      then go (convert_real d s)
      else if d.ch == b'c'
      then go (convert_chars d s)
      else if d.ch == b's'
      then go (convert_word d s)
      else if d.ch == b'n'
      then go (convert_consumed d s)
      else stop (finish s)

  -- What follows a conversion: `next` is the rest of the loop.
  resume : (next : List ℕ → State → Outcome) → Step → List ℕ → Outcome
  resume next (go s) fmt = next fmt s
  resume next (stop o) fmt = o

  after : (next : List ℕ → State → Outcome) → Parsed → State → Outcome
  unfolding convert resume
  after next (got d) s = resume next (convert d s) d.fmt
  after next lost s = undefined
  after next dry s = out_of_fuel

  -- At the end of the string only `n`, with no flags, goes on.
  at_end : (next : List ℕ → State → Outcome) → List ℕ → State → Outcome
  unfolding finish convert_consumed
  at_end next [] s = finish s
  at_end next (c ∷ fmt) s =
      let onward = next fmt (convert_consumed (plain c fmt) s) in
      if c == b'n' then onward else finish s

  -- The case `%`
  pub percent : (next : List ℕ → State → Outcome) → List ℕ → State → Outcome
  unfolding read_directive after at_end
  percent next fmt s = elim s.input.tpch [
    | none ↦ at_end next fmt s
    | some c ↦ after next (read_directive (suc (length fmt)) fmt (plain 0 fmt)) s
  ]

  -- The default case: a character as in the format. At the end of the string `tpch` is 255 as a byte,
  -- and behind a match the code would read beyond the end.
  pub literal : (next : List ℕ → State → Outcome) → (c : ℕ) → List ℕ → State → Outcome
  unfolding finish
  literal next c fmt s =
      let onward = next fmt (record s { input = advance s.input }) in
      elim s.input.tpch [
        | none ↦ if c == 0xff then undefined else finish s
        | some b ↦ if b % 2 ^ 8 == c then onward else finish s
      ]

  -- The loop over the format.
  pub scan_format : (fuel : ℕ) → List ℕ → State → Outcome
  unfolding percent literal finish
  scan_format zero fmt s = out_of_fuel
  scan_format (suc fuel) [] s = finish s
  scan_format (suc fuel) (c ∷ fmt) s =
      let skipped = skip_spaces s.input.tpch s.input.str s.input.consumed in
      let blank = scan_format fuel (skip_space fmt) (record s { input = skipped }) in
      let converted = percent (scan_format fuel) fmt s in
      let matched = literal (scan_format fuel) c fmt s in
      if is_blank c then blank else if c == b'%' then converted else matched

  -- `vsscanf` and `sscanf`. The loop has a round for each byte of the format and one more.
  pub vsscanf : (str fmt : List ℕ) → Outcome
  unfolding scan_format
  vsscanf str fmt =
      scan_format (suc (length fmt)) fmt
        (record { input = next_char str 0; arg = 0; n = 0; stores = [] })
