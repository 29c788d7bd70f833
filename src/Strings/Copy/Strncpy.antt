-- ===== src/Strings/Copy/Strncpy.antt =====
-- `strncpy` and `strncat` of include/lib/string.h.
use valeo.Base.{
  ℕ, zero, suc, ◌+◌, ◌^◌, ◌≤◌, ◌<◌, ◌≡◌, ◌⊎◌, inl, refl, ap, ◌∙◌, arith, List, [], ◌∷◌, ◌++◌, some,
  ◌==◌, ltb, leb, ◌&&◌, length, take, get_or, if◌then◌else◌, true, false,
}
use valeo.Base.Run.{update}
use valeo.Strings.Text.{Memory, IsString, IsString-tail, IsString-end, IsString-frame}
use valeo.Strings.Copy.{pad, strncpy, append, append_to, strncat}
use valeo.Strings.Copy.Strcpy.{Only, IsString-cons, IsString-join, find_end_lem}

pad_lem :
    (n dest : ℕ) (m : Memory) (k : ℕ)
    → pad n dest m k ≡ (if leb dest k && ltb k (dest + n) then 0 else m k)
unfolding pad
pad_lem zero dest m k = ground arith
pad_lem (suc n) dest m k = pad_lem n (dest + 1) (update m dest 0) k ∙ ground arith

-- The bytes of the text, and zeros behind it.
abbrev Padded : (m : Memory) (dest count : ℕ) → List ℕ → Type 0
Padded m dest count text = (j : ℕ) → j < count → m (dest + j) ≡ get_or text j 0

Padded-cons :
    (m : Memory) (dest n c : ℕ) (text : List ℕ)
    → m dest ≡ c
    → Padded m (dest + 1) n text
    → Padded m dest (suc n) (c ∷ text)
Padded-cons m dest n c text first rest zero h = ap m (omega arith) ∙ first
Padded-cons m dest n c text first rest (suc j) h = ap m (omega arith) ∙ rest j (omega arith)

-- If the target does not begin inside of the string, `strncpy` writes `count` bytes and no others: those
-- of the text as far as they go, and zeros behind them. There is no 0 if the text has `count` bytes or
-- more.
pub strncpy_lem :
    (dest src count : ℕ) (text : List ℕ) (m : Memory)
    → IsString m src text
    → (dest ≤ src) ⊎ (src + length text < dest)
    → Padded (strncpy dest src count m) dest count text
      × Only m (strncpy dest src count m) dest count
unfolding strncpy
strncpy_lem dest src zero text m t apart = (λ j h. absurd (omega arith), λ k h. refl)
strncpy_lem dest src (suc n) [] m t apart =
    let end : (m src == 0) ≡ true = ground (arith, IsString-end src t) in
    let m1 = update m dest (m src) in
    rw end (
      λ j h. pad_lem n (dest + 1) m1 (dest + j) ∙ ground (arith, IsString-end src t),
      λ k h. pad_lem n (dest + 1) m1 k ∙ ground arith,
    )
strncpy_lem dest src (suc n) (c ∷ text) m t apart =
    let here : (m src == 0) ≡ false = ground (arith, t.bytes.0, t.no_zero.0) in
    let m1 = update m dest (m src) in
    let tail : IsString m1 (src + 1) text =
      IsString-frame (src + 1) text (λ k h h'. ground arith) (IsString-tail src c text t) in
    let m' = strncpy (dest + 1) (src + 1) n m1 in
    let (padded, only) = strncpy_lem (dest + 1) (src + 1) n text m1 tail (ground arith) in
    let first : m' dest ≡ c = only dest (inl (omega arith)) ∙ ground (arith, t.bytes.0) in
    rw here (Padded-cons m' dest n c text first padded, λ k h. only k (ground arith) ∙ ground arith)

-- The bytes that `strncat` writes: a second 0 if the string is shorter than the count.
abbrev pub written : (count : ℕ) → List ℕ → ℕ
written count b = if ltb (length b) count then length b + 2 else count + 1

append_lem :
    (count dest src : ℕ) (b : List ℕ) (m : Memory)
    → IsString m src b
    → count ≤ 2 ^ 31
    → (dest ≤ src) ⊎ (src + length b < dest)
    → IsString (append count dest src m) dest (take count b)
      × Only m (append count dest src m) dest (written count b)
      × (length b < count → append count dest src m (dest + length b + 1) ≡ 0)
unfolding append
append_lem zero dest src b m t small apart = (
  record { bytes = tt; no_zero = tt; ends = ground arith },
  λ k h. ground arith,
  λ h. absurd (omega arith),
)
append_lem (suc n) dest src [] m t small apart =
    let counted : leb (2 ^ 31) n ≡ false = ground arith in
    let end : (m src == 0) ≡ true = ground (arith, IsString-end src t) in
    rw (counted, end)
      (
        record { bytes = tt; no_zero = tt; ends = ground (arith, IsString-end src t) },
        λ k h. ground arith,
        λ h. ground arith,
      )
append_lem (suc n) dest src (c ∷ b) m t small apart =
    let counted : leb (2 ^ 31) n ≡ false = ground arith in
    let here : (m src == 0) ≡ false = ground (arith, t.bytes.0, t.no_zero.0) in
    let m1 = update m dest (m src) in
    let tail : IsString m1 (src + 1) b =
      IsString-frame (src + 1) b (λ k h h'. ground arith) (IsString-tail src c b t) in
    let m' = append n (dest + 1) (src + 1) m1 in
    let (copied, only, beyond) =
      append_lem n (dest + 1) (src + 1) b m1 tail (omega arith) (ground arith) in
    let first : m' dest ≡ c = only dest (inl (omega arith)) ∙ ground (arith, t.bytes.0) in
    rw (counted, here)
      (
        IsString-cons dest c (take n b) first t.no_zero.0 copied,
        λ k h. only k (ground arith) ∙ ground arith,
        λ h. ap m' (omega arith) ∙ beyond (omega arith),
      )

-- For a count of at most 2 ^ 31 and with a round for each byte of the first string and one more,
-- `strncat` ends, if the end of the first string does not lie inside of the second. At most `count`
-- bytes of the second then stand behind the first. If the second string is shorter than the count, one
-- byte more than the 0 at the end has been written, also with 0. Nothing else has changed.
pub strncat_lem :
    (fuel dest src count : ℕ) (a b : List ℕ) (m : Memory)
    → IsString m dest a
    → IsString m src b
    → length a < fuel
    → count ≤ 2 ^ 31
    → (dest + length a ≤ src) ⊎ (src + length b < dest + length a)
    → (m' : Memory) × (strncat fuel dest src count m ≡ some m')
      × IsString m' dest (a ++ take count b)
      × Only m m' (dest + length a) (written count b)
      × (length b < count → m' (dest + length a + length b + 1) ≡ 0)
unfolding strncat append_to
strncat_lem fuel dest src count a b m s t enough small apart =
    let m' = append count (dest + length a) src m in
    let (copied, only, beyond) = append_lem count (dest + length a) src b m t small apart in
    (
      m',
      rw (find_end_lem fuel dest a m s enough) refl,
      IsString-join m m' dest a (take count b) s (λ k h. only k (inl h)) copied,
      only,
      beyond,
    )
