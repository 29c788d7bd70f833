-- ===== src/Strings/Copy/Strcpy.antt =====
-- `strcpy` and `strcat` of include/lib/string.h.
use valeo.Base.{
  ℕ, zero, suc, ◌+◌, ◌≤◌, ◌<◌, ◌≡◌, ◌⊎◌, inl, refl, ap, ◌∙◌, subst, arith, List, [], ◌∷◌, ◌++◌,
  some, ◌==◌, length, true, false,
}
use valeo.Base.Run.{update}
use valeo.Strings.Text.{Memory, IsString, IsString-tail, IsString-end, IsString-frame}
use valeo.Strings.Copy.{strcpy, find_end, copy_to, strcat}

-- Nothing changes but the `n` bytes from `p` on.
abbrev pub Only : (m m' : Memory) (p n : ℕ) → Type 0
Only m m' p n = (k : ℕ) → (k < p) ⊎ (p + n ≤ k) → m' k ≡ m k

-- A text behind its first byte.
pub IsString-cons :
    {m : Memory} (p c : ℕ) (text : List ℕ)
    → m p ≡ c
    → 0 < c
    → IsString m (p + 1) text
    → IsString m p (c ∷ text)
IsString-cons {m = m} p c text first some_byte s = record {
  bytes = (first, s.bytes);
  no_zero = (some_byte, s.no_zero);
  ends = ap m (omega arith) ∙ s.ends;
}

strcpy-end :
    (m : Memory) (dest src : ℕ) (t : IsString m src []) → IsString (update m dest (m src)) dest []
strcpy-end m dest src t = record {
  bytes = tt;
  no_zero = tt;
  ends = ground (arith, IsString-end src t);
}

-- With a round for each byte of the string and one more, `strcpy` ends, if the target does not begin
-- inside of the string. The string then stands at the target too, and nothing else has changed.
pub strcpy_lem :
    (fuel dest src : ℕ) (text : List ℕ) (m : Memory)
    → IsString m src text
    → length text < fuel
    → (dest ≤ src) ⊎ (src + length text < dest)
    → (m' : Memory) × (strcpy fuel dest src m ≡ some m')
      × IsString m' dest text
      × Only m m' dest (suc (length text))
unfolding strcpy
strcpy_lem zero dest src text m t enough apart = absurd (omega arith)
strcpy_lem (suc fuel) dest src [] m t enough apart =
    let end : (m src == 0) ≡ true = ground (arith, IsString-end src t) in
    (update m dest (m src), rw end refl, strcpy-end m dest src t, λ k h. ground arith)
strcpy_lem (suc fuel) dest src (c ∷ text) m t enough apart =
    let here : (m src == 0) ≡ false = ground (arith, t.bytes.0, t.no_zero.0) in
    let m1 = update m dest (m src) in
    let tail : IsString m1 (src + 1) text =
      IsString-frame (src + 1) text (λ k h h'. ground arith) (IsString-tail src c text t) in
    let (m', run, copied, only) =
      strcpy_lem fuel (dest + 1) (src + 1) text m1 tail (omega arith) (ground arith) in
    let first : m' dest ≡ c = only dest (inl (omega arith)) ∙ ground (arith, t.bytes.0) in
    (
      m',
      rw here run,
      IsString-cons dest c text first t.no_zero.0 copied,
      λ k h. only k (ground arith) ∙ ground arith,
    )

pub find_end_lem :
    (fuel dest : ℕ) (a : List ℕ) (m : Memory)
    → IsString m dest a
    → length a < fuel
    → find_end fuel dest m ≡ some (dest + length a)
unfolding find_end
find_end_lem zero dest a m s enough = absurd (omega arith)
find_end_lem (suc fuel) dest [] m s enough =
    let end : (m dest == 0) ≡ true = ground (arith, IsString-end dest s) in
    rw end (ap some (omega arith))
find_end_lem (suc fuel) dest (c ∷ a) m s enough =
    let here : (m dest == 0) ≡ false = ground (arith, s.bytes.0, s.no_zero.0) in
    rw here (
      find_end_lem fuel (dest + 1) a m (IsString-tail dest c a s) (omega arith)
      ∙ ap some (omega arith))

-- A string at the end of another one, which is not overwritten.
pub IsString-join :
    (m m' : Memory) (dest : ℕ) (a b : List ℕ)
    → IsString m dest a
    → ((k : ℕ) → k < dest + length a → m' k ≡ m k)
    → IsString m' (dest + length a) b
    → IsString m' dest (a ++ b)
IsString-join m m' dest [] b s same t = subst (λ p. IsString m' p b) (omega arith) t
IsString-join m m' dest (c ∷ a) b s same t =
    let first : m' dest ≡ c = same dest (omega arith) ∙ s.bytes.0 in
    let moved : IsString m' (dest + 1 + length a) b =
      subst (λ p. IsString m' p b) (omega arith) t in
    IsString-cons dest c (a ++ b) first s.no_zero.0 (
      IsString-join m m' (dest + 1) a b (IsString-tail dest c a s) (λ k h. same k (omega arith))
        moved)

-- With more rounds than either string has bytes, `strcat` ends, if the end of the first string does not
-- lie inside of the second. Both texts then stand one behind the other, and nothing else has changed.
pub strcat_lem :
    (fuel dest src : ℕ) (a b : List ℕ) (m : Memory)
    → IsString m dest a
    → IsString m src b
    → length a < fuel
    → length b < fuel
    → (dest + length a ≤ src) ⊎ (src + length b < dest + length a)
    → (m' : Memory) × (strcat fuel dest src m ≡ some m')
      × IsString m' dest (a ++ b)
      × Only m m' (dest + length a) (suc (length b))
unfolding strcat copy_to
strcat_lem fuel dest src a b m s t enough enough' apart =
    let (m', run, copied, only) = strcpy_lem fuel (dest + length a) src b m t enough' apart in
    (
      m',
      rw (find_end_lem fuel dest a m s enough) run,
      IsString-join m m' dest a b s (λ k h. only k (inl h)) copied,
      only,
    )
