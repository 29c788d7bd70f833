-- ===== src/Strings/Search/Strcspn.antt =====
-- `memscan` and `strcspn` of include/lib/string.h.
use valeo.Base.{
  ℕ, zero, suc, ◌+◌, ◌-◌, ◌^◌, ◌≤◌, ◌<◌, ◌≡◌, ◌⊎◌, inl, inr, refl, ap, ◌∙◌, arith, List, [], ◌∷◌,
  some, ◌==◌, length, false, true, Bool,
}
use valeo.Strings.Text.{Memory, IsString, IsString-tail, IsString-end, IsString-no_zero}
use valeo.Strings.Search.{scasb, strcspn_loop, offset, strcspn}
use valeo.Strings.Search.Strchr.{Absent, Scanned, hit, miss, scasb_lem}

-- The string at `ct` is measured by a scan for its 0.
scan-string :
    (m : Memory) (n ct : ℕ) (b : List ℕ) (end : Bool × ℕ)
    → IsString m ct b
    → length b < n
    → Scanned m ct n 0 end
    → end.1 - ct - 1 ≡ length b
scan-string m n ct b _ t small (hit i p inside place here before) =
    let not_later : ¬ (length b < i) = λ h. before (length b) h t.ends in
    let not_before : ¬ (i < length b) = λ h. omega (arith, IsString-no_zero ct b i t h) in
    omega (arith, not_later, not_before)
scan-string m n ct b _ t small (miss p place none_here) = absurd (none_here (length b) small t.ends)

-- One of the bytes is `c`.
abbrev pub Occurs : (m : Memory) (s n c : ℕ) → Type 0
Occurs m s n c = (i : ℕ) × (i < n) × (m (s + i) ≡ c)

-- The first `r` bytes of the string at `cs`, of `n` bytes, are not among the `l` bytes at `ct`; the next one is, if
-- there is one.
pub record Span (m : Memory) (cs n ct l r : ℕ) : Type 0 where
  pub inside : r ≤ n
  pub before : (j : ℕ) → j < r → Absent m ct l (m (cs + j))
  pub stop : (r ≡ n) ⊎ Occurs m ct l (m (cs + r))

Span-step :
    (m : Memory) (cs n ct l r : ℕ)
    → Absent m ct l (m cs)
    → Span m (cs + 1) n ct l r
    → Span m cs (suc n) ct l (suc r)
Span-step m cs n ct l r first s = record {
  inside = omega (arith, s.inside);
  before = Span-before m cs n ct l r first s;
  stop = Span-stop m cs n ct l r s.stop;
}
  where
    Span-before :
        (m : Memory) (cs n ct l r : ℕ)
        → Absent m ct l (m cs)
        → Span m (cs + 1) n ct l r
        → (j : ℕ) → j < suc r
        → Absent m ct l (m (cs + j))
    Span-before m cs n ct l r first s zero h i small e = first i small (e ∙ ap m (omega arith))
    Span-before m cs n ct l r first s (suc j) h i small e =
        s.before j (omega arith) i small (e ∙ ap m (omega arith))

    Span-stop :
        (m : Memory) (cs n ct l r : ℕ)
        → (r ≡ n) ⊎ Occurs m ct l (m (cs + 1 + r))
        → (suc r ≡ suc n) ⊎ Occurs m ct l (m (cs + suc r))
    Span-stop m cs n ct l r (inl all) = inl (ap suc all)
    Span-stop m cs n ct l r (inr (i, small, e)) = inr (i, small, e ∙ ap m (omega arith))

-- A byte is looked up among those at `ct`.
scan-cases :
    (m : Memory) (s n c : ℕ) (end : Bool × ℕ)
    → Scanned m s n c end
    → ((end.0 ≡ true) × Occurs m s n c) ⊎ ((end.0 ≡ false) × Absent m s n c)
scan-cases m s n c _ (hit i p small place here before) = inl (refl, (i, small, here))
scan-cases m s n c _ (miss p place none_here) = inr (refl, none_here)

strcspn_loop_lem :
    (m : Memory) (fuel cs ct l : ℕ) (text : List ℕ)
    → IsString m cs text
    → length text < fuel
    → (r : ℕ) × (strcspn_loop m fuel cs ct l ≡ some (cs + r)) × Span m cs (length text) ct l r
unfolding strcspn_loop
strcspn_loop_lem m zero cs ct l text t enough = absurd (omega arith)
strcspn_loop_lem m (suc fuel) cs ct l [] t enough =
    let end : (m cs == 0) ≡ true = ground (arith, IsString-end cs t) in
    (
      0,
      rw end (ap some (omega arith)),
      record { inside = omega arith; before = λ j h. absurd (omega arith); stop = inl refl },
    )
strcspn_loop_lem m (suc fuel) cs ct l (c ∷ text) t enough =
    let here : (m cs == 0) ≡ false = ground (arith, t.bytes.0, t.no_zero.0) in
    elim (scan-cases m ct l (m cs) (scasb m l (m cs) ct) (scasb_lem m l (m cs) ct)) [
      | inl (hit_it, (i, small, e)) ↦ (
        0,
        rw (here, hit_it) (ap some (omega arith)),
        record {
          inside = omega arith;
          before = λ j h. absurd (omega arith);
          stop = inr (i, small, e ∙ ap m (omega arith));
        },
      )
      | inr (miss_it, absent) ↦
          let (r, run, span) =
            strcspn_loop_lem m fuel (cs + 1) ct l text (IsString-tail cs c text t) (omega arith) in
          (
            suc r,
            rw (here, miss_it) (run ∙ ap some (omega arith)),
            Span-step m cs (length text) ct l r absent span,
          )
    ]

offset-add : (m : Memory) (cs r : ℕ) → offset m cs (some (cs + r)) ≡ some r
unfolding offset
offset-add m cs r = ap some (omega arith)

-- At two C strings, with a round for each byte of the first and one more, `strcspn` ends and gives the
-- number of bytes of the first string in front of the first that is one of the second.
pub strcspn_lem :
    (m : Memory) (fuel cs ct : ℕ) (a b : List ℕ)
    → IsString m cs a
    → IsString m ct b
    → length a < fuel
    → length b < 2 ^ 32 - 1
    → (r : ℕ) × (strcspn m fuel cs ct ≡ some r) × Span m cs (length a) ct (length b) r
unfolding strcspn offset
strcspn_lem m fuel cs ct a b s t enough small =
    let measured =
      scan-string m (2 ^ 32 - 1) ct b (scasb m (2 ^ 32 - 1) 0 ct) t small
        (scasb_lem m (2 ^ 32 - 1) 0 ct) in
    let (r, run, span) = strcspn_loop_lem m fuel cs ct (length b) a s enough in
    (r, rw (measured, run) (offset-add m cs r), span)
