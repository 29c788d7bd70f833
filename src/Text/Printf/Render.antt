-- ===== src/Text/Printf/Render.antt =====
-- The text that `vsnprintf` of src/lib/printf.c produces for a format and its arguments, with no
-- buffer, and the proof that the loop writes it.
use valeo.Base.{
  ℕ, zero, suc, ◌+◌, ◌-◌, ◌%◌, ◌^◌, ◌≤◌, ◌<◌, ◌≡◌, refl, ap, ap₂, sym, ◌∙◌, arith, Bool, true,
  false, List, [], ◌∷◌, ◌++◌, some, ◌==◌, ◌||◌, if◌then◌else◌, replicate, length, take, drop,
  length-drop, Bool-cases, inl, inr,
}
use valeo.Text.Number.{Flags, Out, put, put_all, number}
use valeo.Text.Number.Layout.{number_text, number_lem, put_all-append, put_all-one, put_all-none}
use valeo.Text.Directive.{u32, unset, count_of, Scan, here, scan, integer}
use valeo.Text.Directive.Length.{length-scan}
use valeo.Text.Printf.{
  Printer, number_or, strnlen, print_char, string_of, biased, print_string, print_pointer,
  print_integer, signed, large, convert, format,
}

module _ (args : ℕ → ℕ) (string_at : ℕ → List ℕ) where
  -- A text with a number of spaces in front of it or behind it.
  abbrev padded : (left : Bool) (room : ℕ) → List ℕ → List ℕ
  padded left room text =
      let spaces = replicate room b' ' in
      (if left then [] else spaces) ++ text ++ (if left then spaces else [])

  -- The text of a `%s`.
  abbrev string_text : Scan → List ℕ
  string_text s =
      let text = string_of string_at (args s.arg) in
      let len = u32 (strnlen text s.precision) in
      padded s.flags.left (biased s.width - biased len) (take (count_of len) text)

  abbrev integer_text : (base : ℕ) → Scan → List ℕ
  integer_text base s =
      number_text (integer args s).0 base (count_of s.width) (count_of s.precision) s.flags

  abbrev pointer_text : Scan → List ℕ
  pointer_text s =
      let zeros = s.width == unset in
      number_text (args s.arg) 16 (count_of (if zeros then 8 else s.width)) (count_of s.precision)
        (if zeros then record (s.flags) { zero_pad = true } else s.flags)

  -- The text of one directive.
  unfoldable pub directive_text : Scan → List ℕ
  unfolding strnlen string_of
  directive_text s =
      let c = here s in
      if c == b'c'
      then padded s.flags.left (count_of s.width - 1) (args s.arg % 2 ^ 8 ∷ [])
      else if c == b's'
      then string_text s
      else if c == b'p'
      then pointer_text s
      else if c == b'n'
      then []
      else if c == b'%'
      then b'%' ∷ []
      else if c == b'o'
      then integer_text 8 s
      else if c == b'X'
      then integer_text 16 (large s)
      else if c == b'x'
      then integer_text 16 s
      else if c == b'd' || c == b'i'
      then integer_text 10 (signed s)
      else if c == b'u'
      then integer_text 10 s
      else b'%' ∷ (if length s.fmt == 0 then [] else c ∷ [])

  -- The words of `args` used behind it.
  pub next_arg : Scan → ℕ
  next_arg s =
      let c = here s in
      let integer_arg = s.arg + (integer args s).1 in
      if c == b'c'
      then s.arg + 1
      else if c == b's'
      then s.arg + 1
      else if c == b'p'
      then s.arg + 1
      else if c == b'n'
      then s.arg + 1
      else if c == b'%'
      then s.arg
      else if c == b'o'
      then integer_arg
      else if c == b'X'
      then s.arg + (integer args (large s)).1
      else if c == b'x'
      then integer_arg
      else if c == b'd' || c == b'i'
      then s.arg + (integer args (signed s)).1
      else if c == b'u'
      then integer_arg
      else s.arg

  -- The text of a format from word `arg` on.
  unfoldable pub render : (fuel : ℕ) (fmt : List ℕ) (arg : ℕ) → List ℕ
  unfolding directive_text next_arg
  render zero fmt arg = []
  render (suc fuel) [] arg = []
  render (suc fuel) (c ∷ fmt) arg =
      let s = scan args fmt arg in
      let plain = c ∷ render fuel fmt arg in
      let rest = directive_text s ++ render fuel (drop 1 s.fmt) (next_arg s) in
      if c == b'%' then rest else plain

  module _ (buf end : ℕ) where
    -- What a step prints is a text.
    record Prints (text : List ℕ) (arg : ℕ) (p q : Printer) : Type 0 where
      out : q.out ≡ put_all end text p.out
      used : q.arg ≡ arg

    print_char-text :
        (s : Scan) (o : Out)
        → print_char args string_at buf end s o
          ≡ put_all end (padded s.flags.left (count_of s.width - 1) (args s.arg % 2 ^ 8 ∷ [])) o
    unfolding print_char
    print_char-text s o = rw put_all-one (simp put_all-append refl)

    print_string-text :
        (s : Scan) (o : Out)
        → print_string args string_at buf end s o ≡ put_all end (string_text s) o
    unfolding print_string
    print_string-text s o = simp put_all-append refl

    number_or-text :
        (num base size precision : ℕ) (f : Flags) (o : Out)
        → 2 ≤ base
        → base ≤ 36
        → number_or (number end num base size precision f o) o
          ≡ put_all end (number_text num base size precision f) o
    unfolding number_or
    number_or-text num base size precision f o two small =
        ap (λ r. number_or r o) (number_lem end num base size precision f o two small).0

    print_pointer-text :
        (s : Scan) (o : Out)
        → print_pointer args string_at buf end s o ≡ put_all end (pointer_text s) o
    unfolding print_pointer
    print_pointer-text s o = number_or-text (args s.arg) 16 _ _ _ o (omega arith) (omega arith)

    print_integer-Prints :
        (base : ℕ) (s : Scan) (p : Printer)
        → 2 ≤ base
        → base ≤ 36
        → Prints
            (integer_text base s)
            (s.arg + (integer args s).1)
            p
            (print_integer args string_at buf end base s p)
    unfolding print_integer
    print_integer-Prints base s p two small = record {
      out = number_or-text (integer args s).0 base _ _ s.flags p.out two small;
      used = refl;
    }

    Prints-if :
        (b : Bool) (t t' : List ℕ) (a a' : ℕ) (p q q' : Printer)
        → Prints t a p q
        → Prints t' a' p q'
        → Prints (if b then t else t') (if b then a else a') p (if b then q else q')
    Prints-if true t t' a a' p q q' yes_case no_case = yes_case
    Prints-if false t t' a a' p q q' yes_case no_case = no_case

    default-Prints :
        (c : ℕ) (last : Bool) (arg : ℕ) (p : Printer)
        → Prints (b'%' ∷ (if last then [] else c ∷ [])) arg p (record p {
          out = if last then put end b'%' p.out else put end c (put end b'%' p.out);
          arg = arg;
        })
    default-Prints c true arg p = record { out = rw put_all-one; used = refl }
    default-Prints c false arg p = record {
      out =
          put_all-one end c (put end b'%' p.out)
          ∙ ap (put_all end (c ∷ [])) (put_all-one end b'%' p.out)
          ∙ put_all-append end (b'%' ∷ []) (c ∷ []) p.out;
      used = refl;
    }

    nothing : (o : Out) → o ≡ put_all end [] o
    nothing o = sym (put_all-none end o)

    convert-Prints :
        (s : Scan) (p : Printer)
        → Prints (directive_text s) (next_arg s) p (convert args string_at buf end s p)
    unfolding convert directive_text next_arg
    convert-Prints s p =
        let c = here s in
        Prints-if (c == b'c') _ _ _ _ p _ _ (record { out = print_char-text s p.out; used = refl })
          (Prints-if (c == b's') _ _ _ _ p _ _
            (record { out = print_string-text s p.out; used = refl })
            (Prints-if (c == b'p') _ _ _ _ p _ _
              (record { out = print_pointer-text s p.out; used = refl })
              (Prints-if (c == b'n') _ _ _ _ p _ _ (record { out = nothing p.out; used = refl })
                (Prints-if (c == b'%') _ _ _ _ p _ _
                  (record { out = put_all-one end b'%' p.out; used = refl })
                  (Prints-if (c == b'o') _ _ _ _ p _ _
                    (print_integer-Prints 8 s p (omega arith) (omega arith))
                    (Prints-if (c == b'X') _ _ _ _ p _ _
                      (print_integer-Prints 16 (large s) p (omega arith) (omega arith))
                      (Prints-if (c == b'x') _ _ _ _ p _ _
                        (print_integer-Prints 16 s p (omega arith) (omega arith))
                        (Prints-if (c == b'd' || c == b'i') _ _ _ _ p _ _
                          (print_integer-Prints 10 (signed s) p (omega arith) (omega arith))
                          (Prints-if (c == b'u') _ _ _ _ p _ _
                            (print_integer-Prints 10 s p (omega arith) (omega arith))
                            (default-Prints c (length s.fmt == 0) s.arg p))))))))))

    -- With a round for each byte of the format and one more, the loop ends, and it has printed the text
    -- of the format.
    pub format-render :
        (fuel : ℕ) (fmt : List ℕ) (p : Printer)
        → length fmt < fuel
        → (q : Printer) × (format args string_at buf end fuel fmt p ≡ some q)
          × (q.out ≡ put_all end (render fuel fmt p.arg) p.out)
    unfolding format render
    format-render zero fmt p room = absurd (omega arith)
    format-render (suc fuel) [] p room = (p, refl, nothing p.out)
    format-render (suc fuel) (c ∷ fmt) p room = elim (Bool-cases (c == b'%')) [
      | inl percent ↦
          let s = scan args fmt p.arg in
          let done = convert-Prints s p in
          let (q, same, out) =
            format-render fuel (drop 1 s.fmt) (convert args string_at buf end s p)
              (omega (arith, length-drop 1 s.fmt, length-scan args fmt p.arg)) in
          rw percent (
            q,
            same,
            out
                ∙ ap₂ (λ k o. put_all end (render fuel (drop 1 s.fmt) k) o) done.used done.out
                ∙ put_all-append end (directive_text s) (render fuel (drop 1 s.fmt) (next_arg s))
                    p.out,
          )
      | inr other ↦
          let (q, same, out) =
            format-render fuel fmt (record p { out = put end c p.out }) (omega arith) in
          rw other (
            q,
            same,
            out
                ∙ ap (put_all end (render fuel fmt p.arg)) (put_all-one end c p.out)
                ∙ put_all-append end (c ∷ []) (render fuel fmt p.arg) p.out,
          )
    ]
