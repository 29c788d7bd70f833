-- ===== src/Text/Scanf/Format/Total.antt =====
-- The loop of `__v_scanf` in src/lib/scanf.c comes to its end.
use valeo.Base.{
  ℕ, zero, suc, ◌≤◌, ◌<◌, arith, Bool, true, false, List, [], ◌∷◌, Option, none, some, ◌==◌, length,
  Bool-cases, inl, inr, if◌then◌else◌, ◌%◌, ◌^◌,
}
use valeo.Text.Ctype.{is_digit}
use valeo.Text.Strtol.{skip_space, strtol}
use valeo.Text.Strtol.Digits.{AllBelow}
use valeo.Text.Strtol.Left.{Left, Left-more, LeftOption, strtol-Left, skip_space-Left}
use valeo.Text.Scanf.{skip_spaces, advance, is, next_char}
use valeo.Text.Scanf.Format.{
  State, Outcome, ended, undefined, out_of_fuel, Directive, plain, Parsed, got, lost, dry, is_flag,
  is_integer, is_real, set_flag, read_directive, Step, go, stop, finish, convert, convert_consumed,
  resume, after, at_end, percent, literal, is_blank, scan_format, vsscanf,
}

-- What is read of a directive, with at most `n` bytes of the format behind it.
abbrev Read : (n : ℕ) → Parsed → Type 0
Read n (got d) = Left n d.fmt
Read n lost = Unit {0}
Read n dry = ⊥

Read-more : (n n' : ℕ) (p : Parsed) → n ≤ n' → Read n p → Read n' p
Read-more n n' (got d) more h = Left-more n n' d.fmt more h
Read-more n n' lost more h = tt
Read-more n n' dry more h = h

width-Read :
    (fuel n : ℕ) (end : Option (List ℕ)) (d : Directive)
    → LeftOption n end
    → ((rest : List ℕ) → Left n rest → Read n (read_directive fuel rest d))
    → Read n (elim end [ none ↦ lost | some rest ↦ read_directive fuel rest d ])
width-Read fuel n none d h read = tt
width-Read fuel n (some rest) d h read = read rest h

read_directive-Read :
    (fuel : ℕ) (fmt : List ℕ) (d : Directive)
    → length fmt < fuel
    → AllBelow 256 fmt
    → Read (length fmt) (read_directive fuel fmt d)
unfolding read_directive
read_directive-Read zero fmt d enough all = omega (arith, enough)
read_directive-Read (suc fuel) [] d enough all = (omega arith, tt)
read_directive-Read (suc fuel) (c ∷ fmt) d enough (byte, all) = elim (Bool-cases (is_flag c)) [
  | inl flag ↦ rw flag (
      Read-more (length fmt) (suc (length fmt)) (read_directive fuel fmt (set_flag c d))
        (omega arith) (read_directive-Read fuel fmt (set_flag c d) (omega arith) all))
  | inr no_flag ↦ elim (Bool-cases (is_digit c)) [
    | inl digit ↦
        rw (no_flag, digit)
          (Read-more (length fmt) (suc (length fmt)) _ (omega arith) (
            width-Read fuel (length fmt) (strtol (c ∷ fmt) 10).end
              (record d { width = (strtol (c ∷ fmt) 10).value; flag_width = true })
              (strtol-Left c fmt digit (byte, all))
              (λ rest (shorter, bytes). Read-more (length rest) (length fmt) _ shorter (
                read_directive-Read fuel rest
                  (record d { width = (strtol (c ∷ fmt) 10).value; flag_width = true })
                  (omega arith) bytes))))
    | inr other ↦ rw (no_flag, other) (omega arith, all)
  ]
]

-- The call returns, or does what is undefined.
abbrev pub Finishes : Outcome → Type 0
Finishes (ended ret s) = Unit {0}
Finishes undefined = Unit {0}
Finishes out_of_fuel = ⊥

abbrev StepFinishes : Step → Type 0
StepFinishes (go s) = Unit {0}
StepFinishes (stop o) = Finishes o

if_lem : {A : Type 0} (P : A → Type 0) (b : Bool) (x y : A) → P x → P y → P (if b then x else y)
if_lem P true x y h k = h
if_lem P false x y h k = k

option_lem :
    {A : Type 0} (P : A → Type 0) (o : Option ℕ) (x : A) (f : ℕ → A)
    → P x
    → ((c : ℕ) → P (f c))
    → P (elim o [ none ↦ x | some c ↦ f c ])
option_lem P none x f h k = h
option_lem P (some c) x f h k = k c

finish-Finishes : (s : State) → Finishes (finish s)
unfolding finish
finish-Finishes s =
    option_lem Finishes s.input.tpch (if s.n == 0 then ended 0xffffffff s else ended s.n s) _
      (if_lem Finishes (s.n == 0) (ended 0xffffffff s) (ended s.n s) tt tt) (λ c. tt)

-- The rest of the loop returns, for a format of at most `n` bytes.
abbrev Onward : (n : ℕ) → (List ℕ → State → Outcome) → Type 0
Onward n next = (fmt : List ℕ) (s : State) → Left n fmt → Finishes (next fmt s)

module _ (args : ℕ → ℕ) where
  convert-Finishes : (d : Directive) (s : State) → StepFinishes (convert args d s)
  unfolding convert
  convert-Finishes d s =
      let pick = if_lem StepFinishes in
      pick (d.ch == 0) _ _ tt (
        pick (d.ch == b'%') _ _ (pick (is b'%' s.input.tpch) _ _ tt (finish-Finishes s)) (
          pick (is_integer d.ch) _ _ tt (
            pick (is_real d.ch) _ _ tt (
              pick (d.ch == b'c') _ _ tt
                (pick (d.ch == b's') _ _ tt (pick (d.ch == b'n') _ _ tt (finish-Finishes s)))))))

  resume-Finishes :
      (next : List ℕ → State → Outcome) (n : ℕ) (p : Step) (fmt : List ℕ)
      → Onward n next
      → StepFinishes p
      → Left n fmt
      → Finishes (resume args next p fmt)
  unfolding resume
  resume-Finishes next n (go s) fmt onward h left = onward fmt s left
  resume-Finishes next n (stop o) fmt onward h left = h

  after-Finishes :
      (next : List ℕ → State → Outcome) (n : ℕ) (p : Parsed) (s : State)
      → Onward n next
      → Read n p
      → Finishes (after args next p s)
  unfolding after
  after-Finishes next n (got d) s onward read =
      resume-Finishes next n (convert args d s) d.fmt onward (convert-Finishes d s) read
  after-Finishes next n lost s onward read = tt
  after-Finishes next n dry s onward read = read

  at_end-Finishes :
      (next : List ℕ → State → Outcome) (fmt : List ℕ) (s : State)
      → Onward (length fmt) next
      → AllBelow 256 fmt
      → Finishes (at_end args next fmt s)
  unfolding at_end
  at_end-Finishes next [] s onward all = finish-Finishes s
  at_end-Finishes next (c ∷ fmt) s onward (byte, all) =
      if_lem Finishes (c == b'n') _ (finish s)
        (onward fmt (convert_consumed args (plain c fmt) s) (omega arith, all)) (finish-Finishes s)

  percent-Finishes :
      (next : List ℕ → State → Outcome) (fmt : List ℕ) (s : State)
      → Onward (length fmt) next
      → AllBelow 256 fmt
      → Finishes (percent args next fmt s)
  unfolding percent
  percent-Finishes next fmt s onward all =
      let d = plain 0 fmt in
      let read = read_directive-Read (suc (length fmt)) fmt d (omega arith) all in
      option_lem Finishes s.input.tpch (at_end args next fmt s) _
        (at_end-Finishes next fmt s onward all)
        (λ c.
          after-Finishes next (length fmt) (read_directive (suc (length fmt)) fmt d) s onward read)

  literal-Finishes :
      (next : List ℕ → State → Outcome) (c : ℕ) (fmt : List ℕ) (s : State)
      → Onward (length fmt) next
      → AllBelow 256 fmt
      → Finishes (literal args next c fmt s)
  unfolding literal
  literal-Finishes next c fmt s onward all =
      let rest = onward fmt (record s { input = advance s.input }) (omega arith, all) in
      option_lem Finishes s.input.tpch (if c == 0xff then undefined else finish s) _
        (if_lem Finishes (c == 0xff) undefined (finish s) tt (finish-Finishes s))
        (λ b. if_lem Finishes (b % 2 ^ 8 == c) _ (finish s) rest (finish-Finishes s))

  scan_format-Finishes :
      (fuel : ℕ) (fmt : List ℕ) (s : State)
      → length fmt < fuel
      → AllBelow 256 fmt
      → Finishes (scan_format args fuel fmt s)
  unfolding scan_format
  scan_format-Finishes zero fmt s enough all = omega (arith, enough)
  scan_format-Finishes (suc fuel) [] s enough all = finish-Finishes s
  scan_format-Finishes (suc fuel) (c ∷ fmt) s enough (byte, all) =
      let onward : Onward (length fmt) (scan_format args fuel) =
        λ rest s (shorter, bytes). scan_format-Finishes fuel rest s (omega arith) bytes in
      let skipped = skip_spaces s.input.tpch s.input.str s.input.consumed in
      let pick = if_lem Finishes in
      pick (is_blank c) _ _
        (onward (skip_space fmt) (record s { input = skipped })
          (skip_space-Left (length fmt) fmt (omega arith, all)))
        (pick (c == b'%') _ _ (percent-Finishes (scan_format args fuel) fmt s onward all)
          (literal-Finishes (scan_format args fuel) c fmt s onward all))

  -- For every format of bytes and every string, the two loops of `vsscanf` come to an end: the fuel, a round for
  -- each byte of the format and one more, does not run out, so that the call returns or meets one of the two
  -- cases in which the behaviour of the code is undefined.
  pub vsscanf-Finishes : (str fmt : List ℕ) → AllBelow 256 fmt → Finishes (vsscanf args str fmt)
  unfolding vsscanf
  vsscanf-Finishes str fmt all =
      scan_format-Finishes (suc (length fmt)) fmt
        (record { input = next_char str 0; arg = 0; n = 0; stores = [] }) (omega arith) all
