-- ===== src/Strings/Search/Strchr.antt =====
-- Where the routines of include/lib/string.h that look for a byte find it.
use valeo.Base.{
  ℕ, zero, suc, ◌+◌, ◌-◌, ◌%◌, ◌^◌, ◌<◌, ◌≡◌, ◌≢◌, inl, inr, refl, ap, ◌∙◌, arith, List, [], ◌∷◌,
  some, ◌==◌, length, false, true, Bool, Bool-cases, if◌then◌else◌,
}
use valeo.Strings.Text.{Memory, IsString, IsString-tail, IsString-end}
use valeo.Strings.Search.{strchr, strrchr_loop, strrchr, scasb, memchr, memscan}

-- None of the `n` bytes from `s` on is `c`.
abbrev pub Absent : (m : Memory) (s n c : ℕ) → Type 0
Absent m s n c = (j : ℕ) → j < n → m (s + j) ≢ c

-- `r` is the place of the first of the `n` bytes from `s` on that is `c`, or `other` if there is none.
pub data FirstByte (m : Memory) (s n c other r : ℕ) : Type 0 where
  found : (i : ℕ) → i < n → r ≡ s + i → m (s + i) ≡ c → Absent m s i c → FirstByte m s n c other r
  missing : r ≡ other → Absent m s n c → FirstByte m s n c other r

-- `r` is the place of the last one, or `other` if there is none.
pub data LastByte (m : Memory) (s n c other r : ℕ) : Type 0 where
  last :
      (i : ℕ)
      → i < n
      → r ≡ s + i
      → m (s + i) ≡ c
      → Absent m (s + i + 1) (n - i - 1) c
      → LastByte m s n c other r
  no_last : r ≡ other → Absent m s n c → LastByte m s n c other r

Absent-step : (m : Memory) (s n c : ℕ) → m s ≢ c → Absent m (s + 1) n c → Absent m s (suc n) c
Absent-step m s n c first rest zero h e = first (ap m (omega arith) ∙ e)
Absent-step m s n c first rest (suc j) h e = rest j (omega arith) (ap m (omega arith) ∙ e)

FirstByte-here : (m : Memory) (s n c other : ℕ) → m s ≡ c → FirstByte m s (suc n) c other s
FirstByte-here m s n c other e =
    found 0 (omega arith) (omega arith) (ap m (omega arith) ∙ e) (λ j h. absurd (omega arith))

FirstByte-step :
    (m : Memory) (s n c other r : ℕ)
    → m s ≢ c
    → FirstByte m (s + 1) n c other r
    → FirstByte m s (suc n) c other r
FirstByte-step m s n c other r first (found i small place here before) =
    found (suc i) (omega arith) (omega arith) (ap m (omega arith) ∙ here)
      (Absent-step m s i c first before)
FirstByte-step m s n c other r first (missing null none_here) =
    missing null (Absent-step m s n c first none_here)

-- At a C string, with a round for each byte and one more, `strchr` ends. It gives the place of the first
-- `c` among the bytes of the string and its 0, or the null pointer if there is none.
pub strchr_lem :
    (m : Memory) (fuel s c : ℕ) (text : List ℕ)
    → c < 2 ^ 8
    → IsString m s text
    → length text < fuel
    → (r : ℕ) × (strchr m fuel s c ≡ some r) × FirstByte m s (suc (length text)) c 0 r
unfolding strchr
strchr_lem m zero s c text byte t enough = absurd (omega arith)
strchr_lem m (suc fuel) s c [] byte t enough = elim (Bool-cases (m s == c % 2 ^ 8)) [
  | inl same ↦ (s, rw same refl, FirstByte-here m s 0 c 0 (ground arith))
  | inr other ↦
      let end : (m s == 0) ≡ true = ground (arith, IsString-end s t) in
      (
        0,
        rw (other, end) refl,
        missing refl (Absent-step m s 0 c (ground arith) (λ j h. absurd (omega arith))),
      )
]
strchr_lem m (suc fuel) s c (d ∷ text) byte t enough = elim (Bool-cases (m s == c % 2 ^ 8)) [
  | inl same ↦ (s, rw same refl, FirstByte-here m s (suc (length text)) c 0 (ground arith))
  | inr other ↦
      let here : (m s == 0) ≡ false = ground (arith, t.bytes.0, t.no_zero.0) in
      let (r, run, first) =
        strchr_lem m fuel (s + 1) c text byte (IsString-tail s d text t) (omega arith) in
      (r, rw (other, here) run, FirstByte-step m s (suc (length text)) c 0 r (ground arith) first)
]

LastByte-step :
    (m : Memory) (s n c other r : ℕ)
    → LastByte m (s + 1) n c (if m s == c then s else other) r
    → LastByte m s (suc n) c other r
LastByte-step m s n c other r (last i small place here behind) =
    last (suc i) (omega arith) (omega arith) (ap m (omega arith) ∙ here)
      (λ j h e. behind j (omega arith) (ap m (omega arith) ∙ e))
LastByte-step m s n c other r (no_last at_other none_here) = elim (Bool-cases (m s == c)) [
  | inl same ↦
      let here : m s ≡ c = ground arith in
      last 0 (omega arith) (ground arith) (ap m (omega arith) ∙ here)
        (λ j h e. none_here j (omega arith) (ap m (omega arith) ∙ e))
  | inr different ↦ no_last (ground arith) (Absent-step m s n c (ground arith) none_here)
]

strrchr_loop_lem :
    (m : Memory) (fuel s c res : ℕ) (text : List ℕ)
    → c < 2 ^ 8
    → IsString m s text
    → length text < fuel
    → (r : ℕ) × (strrchr_loop m fuel s c res ≡ some r) × LastByte m s (suc (length text)) c res r
unfolding strrchr_loop
strrchr_loop_lem m zero s c res text byte t enough = absurd (omega arith)
strrchr_loop_lem m (suc fuel) s c res [] byte t enough =
    let end : (m s == 0) ≡ true = ground (arith, IsString-end s t) in
    let whole : c % 2 ^ 8 ≡ c = omega arith in
    let r = if m s == c then s else res in
    (
      r,
      rw (whole, end) refl,
      LastByte-step m s 0 c res r (no_last refl (λ j h. absurd (omega arith))),
    )
strrchr_loop_lem m (suc fuel) s c res (d ∷ text) byte t enough =
    let here : (m s == 0) ≡ false = ground (arith, t.bytes.0, t.no_zero.0) in
    let whole : c % 2 ^ 8 ≡ c = omega arith in
    let (r, run, place) =
      strrchr_loop_lem m fuel (s + 1) c (if m s == c then s else res) text byte
        (IsString-tail s d text t) (omega arith) in
    (r, rw (whole, here) run, LastByte-step m s (suc (length text)) c res r place)

-- At a C string, with a round for each byte and one more, `strrchr` ends. It gives the place of the last
-- `c` among the bytes of the string and its 0, or the null pointer if there is none.
pub strrchr_lem :
    (m : Memory) (fuel s c : ℕ) (text : List ℕ)
    → c < 2 ^ 8
    → IsString m s text
    → length text < fuel
    → (r : ℕ) × (strrchr m fuel s c ≡ some r) × LastByte m s (suc (length text)) c 0 r
unfolding strrchr
strrchr_lem m fuel s c text byte t enough = strrchr_loop_lem m fuel s c 0 text byte t enough

-- What `repne scasb` finds: the place behind the first `c`, or behind all bytes.
pub data Scanned (m : Memory) (s n c : ℕ) : (end : Bool × ℕ) → Type 0 where
  hit :
      (i p : ℕ) → i < n → p ≡ s + i + 1 → m (s + i) ≡ c → Absent m s i c → Scanned m s n c (true, p)
  miss : (p : ℕ) → p ≡ s + n → Absent m s n c → Scanned m s n c (false, p)

Scanned-step :
    (m : Memory) (s n c : ℕ) (end : Bool × ℕ)
    → m s ≢ c
    → Scanned m (s + 1) n c end
    → Scanned m s (suc n) c end
Scanned-step m s n c _ first (hit i p small place here before) =
    hit (suc i) p (omega arith) (omega arith) (ap m (omega arith) ∙ here)
      (Absent-step m s i c first before)
Scanned-step m s n c _ first (miss p place none_here) =
    miss p (omega arith) (Absent-step m s n c first none_here)

pub scasb_lem : (m : Memory) (n c s : ℕ) → Scanned m s n c (scasb m n c s)
unfolding scasb
scasb_lem m zero c s = miss s (omega arith) (λ j h. absurd (omega arith))
scasb_lem m (suc n) c s = elim (Bool-cases (m s == c)) [
  | inl same ↦
      let here : m s ≡ c = ground arith in
      rw same (
        hit 0 (s + 1) (omega arith) (omega arith) (ap m (omega arith) ∙ here)
          (λ j h. absurd (omega arith)))
  | inr other ↦
      rw other (Scanned-step m s n c (scasb m n c (s + 1)) (ground arith) (scasb_lem m n c (s + 1)))
]

memchr-from :
    (m : Memory) (s n c : ℕ) (end : Bool × ℕ)
    → Scanned m s n c end
    → FirstByte m s n c 0 ((if end.0 then end.1 else 1) - 1)
memchr-from m s n c _ (hit i p small place here before) = found i small (omega arith) here before
memchr-from m s n c _ (miss p place none_here) = missing (omega arith) none_here

-- `memchr` gives the place of the first byte `c` of the block, or the null pointer if there is none,
-- also for an empty block.
pub memchr_lem : (m : Memory) (s c n : ℕ) → c < 2 ^ 8 → FirstByte m s n c 0 (memchr m s c n)
unfolding memchr
memchr_lem m s c zero byte = missing refl (λ j h. absurd (omega arith))
memchr_lem m s c (suc n) byte =
    let some_byte : (suc n == 0) ≡ false = ground arith in
    let whole : c % 2 ^ 8 ≡ c = omega arith in
    rw (some_byte, whole)
      (memchr-from m s (suc n) c (scasb m (suc n) c s) (scasb_lem m (suc n) c s))

memscan-from :
    (m : Memory) (s n c : ℕ) (end : Bool × ℕ)
    → Scanned m s n c end
    → FirstByte m s n c (s + n) (if end.0 then end.1 - 1 else end.1)
memscan-from m s n c _ (hit i p small place here before) = found i small (omega arith) here before
memscan-from m s n c _ (miss p place none_here) = missing place none_here

-- `memscan` gives the place of the first byte `c` of the block, or the end of the block if there is none,
-- also for an empty block.
pub memscan_lem : (m : Memory) (s c n : ℕ) → c < 2 ^ 8 → FirstByte m s n c (s + n) (memscan m s c n)
unfolding memscan
memscan_lem m s c zero byte = missing (omega arith) (λ j h. absurd (omega arith))
memscan_lem m s c (suc n) byte =
    let some_byte : (suc n == 0) ≡ false = ground arith in
    let whole : c % 2 ^ 8 ≡ c = omega arith in
    rw (some_byte, whole)
      (memscan-from m s (suc n) c (scasb m (suc n) c s) (scasb_lem m (suc n) c s))
