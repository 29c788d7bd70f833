-- ===== src/Text/Directive.antt =====
-- One directive of a format, as `vsnprintf` of src/lib/printf.c reads it: flags, field width,
-- precision and qualifier. The arguments are the 32-bit words on the stack behind the format. An int is
-- its bit pattern: -1 is 0xffffffff.
pub mod Length
use valeo.Base.{
  ℕ, zero, suc, ◌+◌, ◌-◌, ◌*◌, ◌/◌, ◌%◌, ◌^◌, Bool, true, false, List, [], ◌∷◌, ◌==◌, ltb, ◌&&◌,
  ◌||◌, if◌then◌else◌, get_or, drop,
}
use valeo.Text.Ctype.{is_digit}
use valeo.Text.Number.{Flags}

abbrev pub u32 : ℕ → ℕ
u32 n = n % 2 ^ 32

abbrev pub unset : ℕ
unset = 0xffffffff

-- How often a loop that counts an int down to 0 runs.
abbrev pub count_of : ℕ → ℕ
count_of n = if ltb n (2 ^ 31) then n else 0

abbrev pub no_flags : Flags
no_flags = record {
  zero_pad = false;
  sign = false;
  plus = false;
  space = false;
  left = false;
  special = false;
  large = false;
}

-- The variables of one round of the loop: `fmt`, the words of `args` used so far, and the rest.
pub record Scan : Type 0 where
  pub fmt : List ℕ
  pub arg : ℕ
  pub flags : Flags
  pub width : ℕ
  pub precision : ℕ
  pub qualifier : ℕ

-- `*fmt` and `++fmt`
abbrev pub here : Scan → ℕ
here s = get_or s.fmt 0 0

abbrev pub advance : Scan → Scan
advance s = record s { fmt = drop 1 s.fmt }

-- The loop at the label `repeat`, behind the first `++fmt`.
pub scan_flags : List ℕ → Flags → Flags × List ℕ
scan_flags [] f = (f, [])
scan_flags (c ∷ fmt) f =
    let f' =
      if c == b'-'
      then record f { left = true }
      else if c == b'+'
      then record f { plus = true }
      else if c == b' '
      then record f { space = true }
      else if c == b'#'
      then record f { special = true }
      else record f { zero_pad = true } in
    let rest = scan_flags fmt f' in
    if c == b'-' || c == b'+' || c == b' ' || c == b'#' || c == b'0' then rest else (f, c ∷ fmt)

-- `skip_atoi`, with the number so far.
pub skip_atoi : (i : ℕ) → List ℕ → ℕ × List ℕ
skip_atoi i [] = (i, [])
skip_atoi i (c ∷ fmt) =
    let rest = skip_atoi (u32 (u32 (i * 10) + c + 2 ^ 32 - b'0')) fmt in
    if is_digit c then rest else (i, c ∷ fmt)

-- The sign bit of `w` bits, copied up to 64.
unfoldable pub extend : (w n : ℕ) → ℕ
extend w n = if ltb n (2 ^ (w - 1)) then n else n + (2 ^ 64 - 2 ^ w)

module _ (args : ℕ → ℕ) where
  -- The field width: digits, the next argument, or none.
  pub scan_width : Scan → Scan
  unfolding skip_atoi
  scan_width s =
      if is_digit (here s)
      then (let (n, fmt) = skip_atoi 0 s.fmt in record s { width = n; fmt = fmt })
      else if here s == b'*'
      then (let w = args s.arg in
          if ltb w (2 ^ 31)
          then record s { fmt = drop 1 s.fmt; arg = s.arg + 1; width = w }
          else record s {
            fmt = drop 1 s.fmt;
            arg = s.arg + 1;
            width = u32 (2 ^ 32 - w);
            flags = record (s.flags) { left = true };
          })
      else s

  -- The precision behind a dot; below 0 it is 0.
  pub scan_precision : Scan → Scan
  unfolding skip_atoi
  scan_precision s =
      if here s == b'.'
      then (let s = advance s in
          let s =
            if is_digit (here s)
            then (let (n, fmt) = skip_atoi 0 s.fmt in record s { precision = n; fmt = fmt })
            else if here s == b'*'
            then record s { fmt = drop 1 s.fmt; arg = s.arg + 1; precision = args s.arg }
            else s in
          record s { precision = count_of s.precision })
      else s

  -- The qualifier, where `ll` counts as `L`.
  pub scan_qualifier : Scan → Scan
  scan_qualifier s =
      if here s == b'h' || here s == b'l' || here s == b'L' || here s == b'Z'
      then (let t = advance (record s { qualifier = here s }) in
          if t.qualifier == b'l' && here t == b'l'
          then advance (record t { qualifier = b'L' })
          else t)
      else s

  -- From the `%` to the conversion.
  unfoldable pub scan : (fmt : List ℕ) (arg : ℕ) → Scan
  unfolding scan_flags scan_width scan_precision scan_qualifier
  scan fmt arg =
      let (flags, rest) = scan_flags fmt no_flags in
      scan_qualifier (
        scan_precision (
          scan_width (record {
            fmt = rest;
            arg = arg;
            flags = flags;
            width = unset;
            precision = unset;
            qualifier = unset;
          })))

  -- `num` and the words that it takes.
  unfoldable pub integer : Scan → ℕ × ℕ
  unfolding extend
  integer s =
      let word = args s.arg in
      if s.qualifier == b'L'
      then (word + args (s.arg + 1) * 2 ^ 32, 2)
      else if s.qualifier == b'Z'
      then (word, 1)
      else if s.qualifier == b'h'
      then (if s.flags.sign then extend 16 (word % 2 ^ 16) else word % 2 ^ 16, 1)
      else (if s.flags.sign then extend 32 word else word, 1)
