-- ===== src/Strings/Compare/Strcmp.antt =====
-- `strcmp`, `strncmp` and `memcmp` of include/lib/string.h report the order of texts.
use valeo.Base.{
  ℕ, zero, suc, ◌+◌, ◌^◌, ◌≤◌, ◌<◌, ◌≡◌, ◌⊎◌, ◌↔◌, refl, ap, sym, ◌∙◌, arith, List, [], ◌∷◌, some,
  ◌==◌, ltb, leb, length, take, true, false, Bool, Bool-cases, inl, inr,
}
use valeo.Strings.Text.{Memory, IsString, IsString-tail, IsString-end}
use valeo.Strings.Compare.{strcmp, strncmp, cmpsb, memcmp}
use valeo.Strings.Compare.Order.{order, order-same, order-zero, read}

strcmp-order :
    (m : Memory) (fuel cs ct : ℕ) (a b : List ℕ)
    → IsString m cs a
    → IsString m ct b
    → length a < fuel
    → strcmp m fuel cs ct ≡ some (order a b)
unfolding strcmp order
strcmp-order m zero cs ct a b s t enough = absurd (omega arith)
strcmp-order m (suc fuel) cs ct [] [] s t enough =
    let same : (m cs == m ct) ≡ true = ground (arith, IsString-end cs s, IsString-end ct t) in
    let end : (m cs == 0) ≡ true = ground (arith, IsString-end cs s) in rw (same, end) refl
strcmp-order m (suc fuel) cs ct [] (d ∷ b) s t enough =
    let other : (m cs == m ct) ≡ false =
      ground (arith, IsString-end cs s, t.bytes.0, t.no_zero.0) in
    let below : ltb (m ct) (m cs) ≡ false = ground (arith, IsString-end cs s) in
    rw (other, below) refl
strcmp-order m (suc fuel) cs ct (c ∷ a) [] s t enough =
    let other : (m cs == m ct) ≡ false =
      ground (arith, IsString-end ct t, s.bytes.0, s.no_zero.0) in
    let below : ltb (m ct) (m cs) ≡ true =
      ground (arith, IsString-end ct t, s.bytes.0, s.no_zero.0) in
    rw (other, below) refl
strcmp-order m (suc fuel) cs ct (c ∷ a) (d ∷ b) s t enough =
    let here : (m cs == 0) ≡ false = ground (arith, s.bytes.0, s.no_zero.0) in
    let rest =
      strcmp-order m fuel (cs + 1) (ct + 1) a b (IsString-tail cs c a s) (IsString-tail ct d b t)
        (omega arith) in
    rw (s.bytes.0, t.bytes.0)
      (elim (Bool-cases (c == d)) [
        | inl same ↦
            let some_byte : (c == 0) ≡ false = ground (arith, s.no_zero.0) in
            rw (same, some_byte) rest
        | inr other ↦ rw other refl
      ])

-- At two C strings, with a round for each byte of the first and one more, `strcmp` ends and gives their
-- order: 0 if the texts are equal, else 1 or -1 by the first byte that differs, without signs.
pub strcmp_lem :
    (m : Memory) (fuel cs ct : ℕ) (a b : List ℕ)
    → IsString m cs a
    → IsString m ct b
    → length a < fuel
    → (strcmp m fuel cs ct ≡ some (order a b)) × ((order a b ≡ 0) ↔ (a ≡ b))
strcmp_lem m fuel cs ct a b s t enough = (
  strcmp-order m fuel cs ct a b s t enough,
  (order-zero a b, λ e. ap (order a) (sym e) ∙ order-same a),
)

strncmp-order :
    (m : Memory) (cs ct count : ℕ) (a b : List ℕ)
    → IsString m cs a
    → IsString m ct b
    → count ≤ 2 ^ 31
    → strncmp m cs ct count ≡ order (take count a) (take count b)
unfolding strncmp order
strncmp-order m cs ct zero a b s t small = refl
strncmp-order m cs ct (suc n) [] [] s t small =
    let counted : leb (2 ^ 31) n ≡ false = ground arith in
    let same : (m cs == m ct) ≡ true = ground (arith, IsString-end cs s, IsString-end ct t) in
    let end : (m cs == 0) ≡ true = ground (arith, IsString-end cs s) in rw (counted, same, end) refl
strncmp-order m cs ct (suc n) [] (d ∷ b) s t small =
    let counted : leb (2 ^ 31) n ≡ false = ground arith in
    let other : (m cs == m ct) ≡ false =
      ground (arith, IsString-end cs s, t.bytes.0, t.no_zero.0) in
    let below : ltb (m ct) (m cs) ≡ false = ground (arith, IsString-end cs s) in
    rw (counted, other, below) refl
strncmp-order m cs ct (suc n) (c ∷ a) [] s t small =
    let counted : leb (2 ^ 31) n ≡ false = ground arith in
    let other : (m cs == m ct) ≡ false =
      ground (arith, IsString-end ct t, s.bytes.0, s.no_zero.0) in
    let below : ltb (m ct) (m cs) ≡ true =
      ground (arith, IsString-end ct t, s.bytes.0, s.no_zero.0) in
    rw (counted, other, below) refl
strncmp-order m cs ct (suc n) (c ∷ a) (d ∷ b) s t small =
    let counted : leb (2 ^ 31) n ≡ false = ground arith in
    let rest =
      strncmp-order m (cs + 1) (ct + 1) n a b (IsString-tail cs c a s) (IsString-tail ct d b t)
        (omega arith) in
    rw (counted, s.bytes.0, t.bytes.0)
      (elim (Bool-cases (c == d)) [
        | inl same ↦
            let some_byte : (c == 0) ≡ false = ground (arith, s.no_zero.0) in
            rw (same, some_byte) rest
        | inr other ↦ rw other refl
      ])

strncmp-large : (m : Memory) (cs ct count : ℕ) → 2 ^ 31 < count → strncmp m cs ct count ≡ 0
unfolding strncmp
strncmp-large m cs ct zero h = refl
strncmp-large m cs ct (suc n) h =
    let negative : leb (2 ^ 31) n ≡ true = ground arith in rw negative refl

-- For a count of at most 2 ^ 31, `strncmp` of two C strings gives the order of their first `count` bytes.
-- For a larger one it gives 0 for any two strings.
pub strncmp_lem :
    (m : Memory) (cs ct count : ℕ) (a b : List ℕ)
    → IsString m cs a
    → IsString m ct b
    → ((count ≤ 2 ^ 31) × (strncmp m cs ct count ≡ order (take count a) (take count b)))
      ⊎ ((2 ^ 31 < count) × (strncmp m cs ct count ≡ 0))
strncmp_lem m cs ct count a b s t = elim (Bool-cases (leb count (2 ^ 31))) [
  | inl small ↦ inl (ground arith, strncmp-order m cs ct count a b s t (ground arith))
  | inr large ↦ inr (ground arith, strncmp-large m cs ct count (ground arith))
]

cmpsb-order :
    (m : Memory) (flags : Bool × Bool) (n cs ct : ℕ)
    → memcmp m flags cs ct (suc n) ≡ order (read m (suc n) cs) (read m (suc n) ct)
unfolding memcmp cmpsb order read
cmpsb-order m flags zero cs ct = elim (Bool-cases (m cs == m ct)) [
  | inl same ↦ rw same refl
  | inr other ↦ rw other (ground arith)
]
cmpsb-order m flags (suc n) cs ct = elim (Bool-cases (m cs == m ct)) [
  | inl same ↦ rw same (cmpsb-order m (true, ltb (m cs) (m ct)) n (cs + 1) (ct + 1))
  | inr other ↦ rw other (ground arith)
]

-- `memcmp` of two blocks of at least one byte gives the order of their bytes, whatever the flags of the
-- processor are.
pub memcmp_lem :
    (m : Memory) (flags : Bool × Bool) (cs ct count : ℕ)
    → 0 < count
    → memcmp m flags cs ct count ≡ order (read m count cs) (read m count ct)
memcmp_lem m flags cs ct zero some_byte = absurd (omega arith)
memcmp_lem m flags cs ct (suc n) some_byte = cmpsb-order m flags n cs ct
