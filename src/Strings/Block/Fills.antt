-- ===== src/Strings/Block/Fills.antt =====
-- What `memset` of include/lib/string.h does to memory.
use valeo.Base.{
  ℕ, zero, suc, ◌+◌, ◌-◌, ◌*◌, ◌/◌, ◌%◌, ◌^◌, ◌≤◌, ◌<◌, ◌≡◌, ◌⊎◌, inl, inr, refl, ap, sym, ◌∙◌,
  arith, Bool, true, false, ◌==◌, ltb, leb, ◌&&◌, if◌then◌else◌, Bool-cases,
}
use valeo.Strings.Text.{Memory}
use valeo.Strings.Block.{
  store, store_units, rounds, four_times, doubled_twice, memset_by4, memset_by2, memset_cg, memset,
  memset_gc,
}

-- The bytes from `s` on are `c`.
unfoldable pub fill : (n c s : ℕ) → Memory → Memory
fill n c s m k = if leb s k && ltb k (s + n) then c else m k

-- The lowest `w` bytes of `v` are all `c`.
abbrev Repeats : (w v c : ℕ) → Type 0
Repeats w v c = (i : ℕ) → i < w → v / 2 ^ (8 * i) % 2 ^ 8 ≡ c

store-fill : (w v c s : ℕ) (m : Memory) (k : ℕ) → Repeats w v c → store w v s m k ≡ fill w c s m k
unfolding store fill
store-fill w v c s m k same = elim (Bool-cases (leb s k && ltb k (s + w))) [
  | inl inside ↦ rw inside (same (k - s) (ground arith))
  | inr outside ↦ rw outside refl
]

fill-then :
    (a b c s : ℕ) (m : Memory) (k : ℕ) → fill b c (s + a) (fill a c s m) k ≡ fill (a + b) c s m k
unfolding fill
fill-then a b c s m k = ground arith

none_filled : (c s : ℕ) (m : Memory) (k : ℕ) → fill 0 c s m k ≡ m k
unfolding fill
none_filled c s m k = ground arith

-- One more store behind `a` filled bytes.
store-step :
    (a w v c n s s' : ℕ) (m m' : Memory)
    → Repeats w v c
    → a + w ≡ n
    → s + a ≡ s'
    → m' ≡ fill a c s m
    → store w v s' m' ≡ fill n c s m
store-step a w v c n s s' m m' same total place before =
    ap (store w v s') before
    ∙ ap (λ p. store w v p (fill a c s m)) (sym place)
    ∙ (λ i k. store-fill w v c (s + a) (fill a c s m) k same i)
    ∙ (λ i k. fill-then a w c s m k i)
    ∙ ap (λ n. fill n c s m) total

store_units_lem :
    (w v c r s : ℕ) (m : Memory) → Repeats w v c → store_units w v r s m ≡ fill (w * r) c s m
unfolding store_units
store_units_lem w v c zero s m same =
    (λ i k. sym (none_filled c s m k) i) ∙ ap (λ n. fill n c s m) (omega arith)
store_units_lem w v c (suc r) s m same =
    store_units_lem w v c r (s + w) (store w v s m) same
    ∙ ap (fill (w * r) c (s + w)) (λ i k. store-fill w v c s m k same i)
    ∙ (λ i k. fill-then w (w * r) c s m k i)
    ∙ ap (λ n. fill n c s m) (omega arith)

Repeats-less : (w w' v c : ℕ) → w' ≤ w → Repeats w v c → Repeats w' v c
Repeats-less w w' v c less same i h = same i (omega arith)

-- The four bytes of the words that the stores use.
bytes-lem : (v c : ℕ) → c < 2 ^ 8 → v ≡ 0x01010101 * c → Repeats 4 v c
bytes-lem v c h e zero small = omega arith
bytes-lem v c h e (suc zero) small = omega arith
bytes-lem v c h e (suc (suc zero)) small = omega arith
bytes-lem v c h e (suc (suc (suc zero))) small = omega arith
bytes-lem v c h e (suc (suc (suc (suc i)))) small = absurd (omega arith)

two_bytes : (c : ℕ) → c < 2 ^ 8 → Repeats 2 (0x0101 * c) c
two_bytes c h zero small = omega arith
two_bytes c h (suc zero) small = omega arith
two_bytes c h (suc (suc i)) small = absurd (omega arith)

four_bytes : (c : ℕ) → c < 2 ^ 8 → Repeats 4 (four_times c) c
four_bytes c h = bytes-lem (four_times c) c h (omega arith)

doubled_bytes : (c : ℕ) → c < 2 ^ 8 → Repeats 4 (doubled_twice c) c
doubled_bytes c h = bytes-lem (doubled_twice c) c h (omega arith)

memset_by4_lem :
    (v c s n : ℕ) (m : Memory)
    → Repeats 4 v c
    → 0 < n
    → n % 4 ≡ 0
    → memset_by4 v s n m ≡ fill n c s m
unfolding memset_by4 rounds
memset_by4_lem v c s n m same some_byte whole =
    let r : (if n / 4 == 0 then 2 ^ 32 else n / 4) ≡ n / 4 = ground arith in
    ap (λ r. store_units 4 v r s m) r
    ∙ store_units_lem 4 v c (n / 4) s m same
    ∙ ap (λ n. fill n c s m) (omega arith)

memset_by2_lem :
    (v c s n : ℕ) (m : Memory) → Repeats 4 v c → n % 4 ≡ 2 → memset_by2 v s n m ≡ fill n c s m
unfolding memset_by2
memset_by2_lem v c s n m same whole =
    let r = n / 2 / 2 in
    store-step (4 * r) 2 v c n s (s + 4 * r) m (store_units 4 v r s m)
      (Repeats-less 4 2 v c (omega arith) same) (omega arith) refl
      (store_units_lem 4 v c r s m same)

memset_cg_lem : (c s n : ℕ) (m : Memory) → c < 2 ^ 8 → memset_cg s c n m ≡ fill n c s m
unfolding memset_cg
memset_cg_lem c s n m h =
    let r = n / 2 in
    let v = 0x0101 * c in
    let words = store_units_lem 2 v c r s m (two_bytes c h) in
    elim (Bool-cases (n % 2 == 1)) [
      | inl odd ↦ rw odd (
          store-step (2 * r) 1 v c n s (s + 2 * r) m (store_units 2 v r s m)
            (Repeats-less 2 1 v c (omega arith) (two_bytes c h)) (ground arith) refl words)
      | inr even ↦ rw even (words ∙ ap (λ n. fill n c s m) (ground arith))
    ]

-- `memset` of a constant byte fills the bytes with it, by each of its three ways, and changes nothing
-- else. A constant count must not be 0.
pub memset_lem :
    (constant : Bool) (s c n : ℕ) (m : Memory)
    → c < 2 ^ 8
    → (constant ≡ false) ⊎ (0 < n)
    → memset constant s c n m ≡ fill n c s m
unfolding memset
memset_lem false s c n m h some_byte = memset_cg_lem c s n m h
memset_lem true s c n m h some_byte = elim (Bool-cases (n % 4 == 0)) [
  | inl fours ↦
      rw fours
        (memset_by4_lem (four_times c) c s n m (four_bytes c h) (ground arith) (ground arith))
  | inr other ↦ elim (Bool-cases (n % 2 == 0)) [
    | inl twos ↦
        rw (other, twos) (memset_by2_lem (four_times c) c s n m (four_bytes c h) (ground arith))
    | inr odd ↦ rw (other, odd) (memset_cg_lem c s n m h)
  ]
]

-- For a byte that is not constant and a constant count that is even and not 0, `memset` does the same.
pub memset_gc_lem :
    (s c n : ℕ) (m : Memory) → c < 2 ^ 8 → 0 < n → n % 2 ≡ 0 → memset_gc s c n m ≡ fill n c s m
unfolding memset_gc
memset_gc_lem s c n m h some_byte even = elim (Bool-cases (n % 4 == 0)) [
  | inl fours ↦
      rw fours
        (memset_by4_lem (doubled_twice c) c s n m (doubled_bytes c h) some_byte (ground arith))
  | inr other ↦
      rw other (memset_by2_lem (doubled_twice c) c s n m (doubled_bytes c h) (ground arith))
]
