-- ===== src/Text/Directive/Length.antt =====
-- The scan of a directive of src/lib/printf.c only moves forward.
use valeo.Base.{
  ℕ, ◌+◌, ◌-◌, ◌*◌, ◌^◌, ◌≤◌, arith, List, [], ◌∷◌, length, drop, Bool-cases, inl, inr, ◌||◌, ◌==◌,
  length-drop,
}
use valeo.Text.Ctype.{is_digit}
use valeo.Text.Number.{Flags}
use valeo.Text.Directive.{
  u32, Scan, scan_flags, skip_atoi, scan_width, scan_precision, scan_qualifier, scan, no_flags,
  unset,
}

length-scan_flags : (fmt : List ℕ) (f : Flags) → length (scan_flags fmt f).1 ≤ length fmt
unfolding scan_flags
length-scan_flags [] f = omega arith
length-scan_flags (c ∷ fmt) f =
    elim (Bool-cases (c == b'-' || c == b'+' || c == b' ' || c == b'#' || c == b'0')) [
      | inl flag ↦ rw flag (omega (arith, length-scan_flags fmt _))
      | inr other ↦ rw other (omega arith)
    ]

length-skip_atoi : (i : ℕ) (fmt : List ℕ) → length (skip_atoi i fmt).1 ≤ length fmt
unfolding skip_atoi
length-skip_atoi i [] = omega arith
length-skip_atoi i (c ∷ fmt) = elim (Bool-cases (is_digit c)) [
  | inl digit ↦
      rw digit (omega (arith, length-skip_atoi (u32 (u32 (i * 10) + c + 2 ^ 32 - b'0')) fmt))
  | inr other ↦ rw other (omega arith)
]

length-scan_width : (args : ℕ → ℕ) (s : Scan) → length (scan_width args s).fmt ≤ length s.fmt
unfolding scan_width
length-scan_width args s = ground (arith, length-skip_atoi 0 s.fmt, length-drop 1 s.fmt)

length-scan_precision :
    (args : ℕ → ℕ) (s : Scan) → length (scan_precision args s).fmt ≤ length s.fmt
unfolding scan_precision
length-scan_precision args s =
    ground
      (arith, length-skip_atoi 0 (drop 1 s.fmt), length-drop 1 s.fmt, length-drop 1 (drop 1 s.fmt))

length-scan_qualifier :
    (args : ℕ → ℕ) (s : Scan) → length (scan_qualifier args s).fmt ≤ length s.fmt
unfolding scan_qualifier
length-scan_qualifier args s = ground (arith, length-drop 1 s.fmt, length-drop 1 (drop 1 s.fmt))

pub length-scan :
    (args : ℕ → ℕ) (fmt : List ℕ) (arg : ℕ) → length (scan args fmt arg).fmt ≤ length fmt
unfolding scan
length-scan args fmt arg =
    let s : Scan = record {
      fmt = (scan_flags fmt no_flags).1;
      arg = arg;
      flags = (scan_flags fmt no_flags).0;
      width = unset;
      precision = unset;
      qualifier = unset;
    } in
    let w = scan_width args s in
    let p = scan_precision args w in
    omega (
      arith,
      length-scan_flags fmt no_flags,
      length-scan_width args s,
      length-scan_precision args w,
      length-scan_qualifier args p,
    )
