-- ===== src/Strings/Compare/Strstr.antt =====
-- `strstr` of include/lib/string.h finds the first place of one text in another.
use valeo.Base.{
  ℕ, zero, suc, ◌+◌, ◌-◌, ◌^◌, ◌≤◌, ◌<◌, ◌≡◌, refl, ap, ◌∙◌, arith, List, [], ◌∷◌, Option, some,
  ◌==◌, leb, length, false, Bool, Bool-cases, inl, inr,
}
use valeo.Strings.Text.{Memory, IsString}
use valeo.Strings.Search.{strlen}
use valeo.Strings.Search.Strlen.{strlen_lem}
use valeo.Strings.Compare.{u32, biased, memcmp, strstr_loop, strstr_from, strstr_for, strstr}
use valeo.Strings.Compare.Order.{Same, order-Same, Same-order}
use valeo.Strings.Compare.Strcmp.{memcmp_lem}

-- `r` is the first place in the `n` bytes at `s1` where the `l` bytes at `s2` stand, or 0 if there is none.
pub data FirstPlace (m : Memory) (n l s1 s2 r : ℕ) : Type 0 where
  found :
      (i : ℕ)
      → i + l ≤ n
      → r ≡ s1 + i
      → Same m l (s1 + i) s2
      → ((j : ℕ) → j < i → ¬ Same m l (s1 + j) s2)
      → FirstPlace m n l s1 s2 r
  missing : r ≡ 0 → ((j : ℕ) → j + l ≤ n → ¬ Same m l (s1 + j) s2) → FirstPlace m n l s1 s2 r

Same-place : (m : Memory) (l p p' q : ℕ) → p ≡ p' → Same m l p q → Same m l p' q
Same-place m l p p' q e same j h = ap m (omega arith) ∙ same j h

FirstPlace-here : (m : Memory) (n l s1 s2 : ℕ) → l ≤ n → Same m l s1 s2 → FirstPlace m n l s1 s2 s1
FirstPlace-here m n l s1 s2 room same =
    found 0 (omega arith) (omega arith) (Same-place m l s1 (s1 + 0) s2 (omega arith) same)
      (λ j h. absurd (omega arith))

Not-step :
    (m : Memory) (l s1 s2 : ℕ) (P : ℕ → Type 0)
    → ¬ Same m l s1 s2
    → ((j : ℕ) → P (suc j) → ¬ Same m l (s1 + 1 + j) s2)
    → (j : ℕ) → P j
    → ¬ Same m l (s1 + j) s2
Not-step m l s1 s2 P first rest zero h same =
    first (Same-place m l (s1 + 0) s1 s2 (omega arith) same)
Not-step m l s1 s2 P first rest (suc j) h same =
    rest j h (Same-place m l (s1 + suc j) (s1 + 1 + j) s2 (omega arith) same)

FirstPlace-step :
    (m : Memory) (n l s1 s2 r : ℕ)
    → ¬ Same m l s1 s2
    → FirstPlace m n l (s1 + 1) s2 r
    → FirstPlace m (suc n) l s1 s2 r
FirstPlace-step m n l s1 s2 r first (found i room place here before) =
    found (suc i) (omega arith) (omega arith)
      (Same-place m l (s1 + 1 + i) (s1 + suc i) s2 (omega arith) here)
      (Not-step m l s1 s2 (λ j. j < suc i) first (λ j h. before j (omega arith)))
FirstPlace-step m n l s1 s2 r first (missing null none_here) =
    missing null (Not-step m l s1 s2 (λ j. j + l ≤ suc n) first (λ j h. none_here j (omega arith)))

-- With more rounds than the first text has bytes, the loop ends and finds the place.
record Finds (m : Memory) (n l s1 s2 : ℕ) (result : Option ℕ) : Type 0 where
  place : ℕ
  returns : result ≡ some place
  first : FirstPlace m n l s1 s2 place

strstr_loop_lem :
    (m : Memory) (flags : Bool × Bool) (fuel n l s1 s2 : ℕ)
    → n < fuel
    → n < 2 ^ 31
    → 0 < l
    → l < 2 ^ 31
    → Finds m n l s1 s2 (strstr_loop m flags fuel n l s1 s2)
unfolding strstr_loop
strstr_loop_lem m flags zero n l s1 s2 enough small some_byte small' = absurd (omega arith)
strstr_loop_lem m flags (suc fuel) zero l s1 s2 enough small some_byte small' =
    let short : leb (biased l) (biased 0) ≡ false = ground arith in
    rw short
      (record { place = 0; returns = refl; first = missing refl (λ j h. absurd (omega arith)) })
strstr_loop_lem m flags (suc fuel) (suc n) l s1 s2 enough small some_byte small' =
    elim (Bool-cases (leb (biased l) (biased (suc n)))) [
      | inr short ↦ rw short (record {
        place = 0;
        returns = refl;
        first = missing refl (λ j h. absurd (ground arith));
      })
      | inl room ↦ elim (Bool-cases (memcmp m flags s1 s2 l == 0)) [
        | inl same ↦
            rw (room, same)
              (record {
                place = s1;
                returns = refl;
                first =
                    FirstPlace-here m (suc n) l s1 s2 (ground arith)
                      (Same-order m l s1 s2 (ground (arith, memcmp_lem m flags s1 s2 l some_byte)));
              })
        | inr other ↦
            let less : u32 (suc n + 2 ^ 32 - 1) ≡ n = omega arith in
            let rest =
              strstr_loop_lem m flags fuel n l (s1 + 1) s2 (omega arith) (omega arith) some_byte
                small' in
            rw (room, other, less)
              (record {
                place = rest.place;
                returns = rest.returns;
                first =
                    FirstPlace-step m n l s1 s2 rest.place
                      (λ same.
                        ground
                          (arith, order-Same m l s1 s2 same, memcmp_lem m flags s1 s2 l some_byte))
                      rest.first;
              })
      ]
    ]

-- The lengths as ints, where they are below 2 ^ 31, and the search for a text that is not empty.
strstr_for-run :
    (m : Memory) (flags : Bool × Bool) (fuel s1 s2 n l r : ℕ)
    → n < 2 ^ 31
    → l < 2 ^ 31
    → 0 < l
    → strlen m fuel s1 ≡ some n
    → strstr_loop m flags fuel n l s1 s2 ≡ some r
    → strstr_for m flags fuel s1 s2 (some l) ≡ some r
unfolding strstr_for strstr_from
strstr_for-run m flags fuel s1 s2 n l r small small' some_byte len run =
    let not_empty : (u32 l == 0) ≡ false = ground arith in
    let whole : u32 l ≡ l = omega arith in
    let whole' : u32 n ≡ n = omega arith in rw (not_empty, whole, len, whole') run

-- At two C strings of fewer than 2 ^ 31 bytes each, with more rounds than either has bytes, `strstr`
-- ends. It gives the first place in the first string where the second stands, or the null pointer if
-- there is none.
pub strstr_lem :
    (m : Memory) (flags : Bool × Bool) (fuel s1 s2 : ℕ) (a b : List ℕ)
    → IsString m s1 a
    → IsString m s2 b
    → length a < fuel
    → length b < fuel
    → length a < 2 ^ 31
    → length b < 2 ^ 31
    → (r : ℕ) × (strstr m flags fuel s1 s2 ≡ some r) × FirstPlace m (length a) (length b) s1 s2 r
unfolding strstr strstr_for strstr_from
strstr_lem m flags fuel s1 s2 a [] s t enough enough' small small' = (
  s1,
  rw (strlen_lem m fuel s2 [] t enough') refl,
  FirstPlace-here m (length a) 0 s1 s2 (omega arith) (λ j h. absurd (omega arith)),
)
strstr_lem m flags fuel s1 s2 a (d ∷ b) s t enough enough' small small' =
    let found =
      strstr_loop_lem m flags fuel (length a) (length (d ∷ b)) s1 s2 enough small (omega arith)
        small' in
    (
      found.place,
      rw (strlen_lem m fuel s2 (d ∷ b) t enough') (
          strstr_for-run m flags fuel s1 s2 (length a) (length (d ∷ b)) found.place small small'
            (omega arith) (strlen_lem m fuel s1 a s enough) found.returns),
      found.first,
    )
