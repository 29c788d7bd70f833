-- ===== src/Strings/Block/Moves.antt =====
-- Copies of blocks by the routines of include/lib/string.h are moves of all the bytes at once.
use valeo.Base.{
  ℕ, zero, suc, ◌+◌, ◌-◌, ◌*◌, ◌/◌, ◌%◌, ◌≤◌, ◌<◌, ◌≡◌, ◌⊎◌, inl, inr, refl, ap, sym, ◌∙◌, arith,
  Bool, true, false, ◌==◌, ltb, leb, ◌&&◌, if◌then◌else◌, Bool-cases,
}
use valeo.Strings.Text.{Memory}
use valeo.Strings.Block.{
  move, rounds, move_longs, memcpy_by4, memcpy_by2, memcpy_g, memcpy, move_up, move_down, memmove,
}

-- A forward copy of `n` bytes does not overwrite what it has yet to read.
abbrev pub Forward : (n to from : ℕ) → Type 0
Forward n to from = (to ≤ from) ⊎ (from + n ≤ to)

move-then :
    (v w to from : ℕ) (m : Memory) (k : ℕ)
    → Forward (v + w) to from
    → move w (to + v) (from + v) (move v to from m) k ≡ move (v + w) to from m k
unfolding move
move-then v w to from m k h = elim (Bool-cases (leb (to + v) k && ltb k (to + v + w))) [
  | inl inside ↦
      let later : (leb to (from + v + (k - (to + v))) && ltb (from + v + (k - (to + v))) (to + v))
          ≡ false =
        ground arith in
      let all : (leb to k && ltb k (to + (v + w))) ≡ true = ground arith in
      rw (inside, later, all) (ap m (ground arith))
  | inr outside ↦ rw outside (ground arith)
]

move-append :
    (v w to from : ℕ) (m : Memory)
    → Forward (v + w) to from
    → move w (to + v) (from + v) (move v to from m) ≡ move (v + w) to from m
move-append v w to from m h i k = move-then v w to from m k h i

none_moved : (to from : ℕ) (m : Memory) (k : ℕ) → move 0 to from m k ≡ m k
unfolding move
none_moved to from m k = ground arith

move-none : (to from : ℕ) (m : Memory) → move 0 to from m ≡ m
move-none to from m i k = none_moved to from m k i

-- One more step behind a move of `v` bytes.
move-step :
    (v w n to from to' from' : ℕ) (m m' : Memory)
    → Forward n to from
    → v + w ≡ n
    → to + v ≡ to'
    → from + v ≡ from'
    → m' ≡ move v to from m
    → move w to' from' m' ≡ move n to from m
move-step v w n to from to' from' m m' h total place source before =
    ap (λ t. move w t from' m') (sym place)
    ∙ ap (λ f. move w (to + v) f m') (sym source)
    ∙ ap (move w (to + v) (from + v)) before
    ∙ move-append v w to from m (ground arith)
    ∙ ap (λ n. move n to from m) total

move_longs_lem :
    (r to from : ℕ) (m : Memory)
    → Forward (4 * r) to from
    → move_longs r to from m ≡ move (4 * r) to from m
unfolding move_longs
move_longs_lem zero to from m h = sym (move-none to from m)
move_longs_lem (suc r) to from m h =
    move_longs_lem r (to + 4) (from + 4) (move 4 to from m) (ground arith)
    ∙ move-step 4 (4 * r) (4 * suc r) to from (to + 4) (from + 4) m (move 4 to from m) h
        (omega arith) refl refl refl

rounds_lem : (n : ℕ) → 0 < n → rounds n ≡ n
unfolding rounds
rounds_lem n h = ground arith

memcpy_by4_lem :
    (to from n : ℕ) (m : Memory)
    → Forward n to from
    → 0 < n
    → n % 4 ≡ 0
    → memcpy_by4 to from n m ≡ move n to from m
unfolding memcpy_by4
memcpy_by4_lem to from n m h some_byte whole =
    let longs : 4 * (n / 4) ≡ n = omega arith in
    ap (λ r. move_longs r to from m) (rounds_lem (n / 4) (omega arith))
    ∙ move_longs_lem (n / 4) to from m (ground arith)
    ∙ ap (λ n. move n to from m) longs

memcpy_by2_lem :
    (to from n : ℕ) (m : Memory)
    → Forward n to from
    → n % 4 ≡ 2
    → memcpy_by2 to from n m ≡ move n to from m
unfolding memcpy_by2
memcpy_by2_lem to from n m h whole =
    let r = n / 2 / 2 in
    move-step (4 * r) 2 n to from (to + 4 * r) (from + 4 * r) m (move_longs r to from m) h
      (omega arith) refl refl (move_longs_lem r to from m (ground arith))

-- A step of `w` bytes that is taken if a bit of the count is set.
bit-step :
    (bit v w n to from to' from' : ℕ) (m m' : Memory)
    → Forward n to from
    → bit < 2
    → to + v ≡ to'
    → from + v ≡ from'
    → v + w * bit ≡ n
    → m' ≡ move v to from m
    → (if bit == 1 then move w to' from' m' else m') ≡ move n to from m
bit-step bit v w n to from to' from' m m' h small place source total before =
    elim (Bool-cases (bit == 1)) [
      | inl set ↦
          let one : bit ≡ 1 = ground arith in
          let steps : v + w ≡ n = omega (arith, ap (λ b. v + w * b) (sym one) ∙ total) in
          rw set (move-step v w n to from to' from' m m' h steps place source before)
      | inr clear ↦
          let none : bit ≡ 0 = ground arith in
          let all : v ≡ n = omega (arith, ap (λ b. v + w * b) (sym none) ∙ total) in
          rw clear (before ∙ ap (λ n. move n to from m) all)
    ]

memcpy_g_lem :
    (to from n : ℕ) (m : Memory) → Forward n to from → memcpy_g to from n m ≡ move n to from m
unfolding memcpy_g
memcpy_g_lem to from n m h =
    let byte = n % 2 in
    let word = n / 2 % 2 in
    let r = n / 2 / 2 in
    let b = if byte == 1 then move 1 to from m else m in
    let w = if word == 1 then move 2 (to + byte) (from + byte) b else b in
    let done = byte + 2 * word in
    let first : (if byte == 1 then move 1 to from m else m) ≡ move byte to from m =
      bit-step byte 0 1 byte to from to from m m (ground arith) (omega arith) (omega arith)
        (omega arith) (omega arith) (sym (move-none to from m)) in
    let second : w ≡ move done to from m =
      bit-step word byte 2 done to from (to + byte) (from + byte) m b (ground arith) (omega arith)
        refl refl (omega arith) first in
    move_longs_lem r (to + byte + 2 * word) (from + byte + 2 * word) w (ground arith)
    ∙ move-step done (4 * r) n to from (to + byte + 2 * word) (from + byte + 2 * word) m w h
        (omega arith) (omega arith) (omega arith) second

-- For regions of which the target does not begin inside of the source, `memcpy` copies all the bytes at
-- once, by each of its three ways, and changes nothing else. A constant count must not be 0.
pub memcpy_lem :
    (constant : Bool) (to from n : ℕ) (m : Memory)
    → Forward n to from
    → (constant ≡ false) ⊎ (0 < n)
    → memcpy constant to from n m ≡ move n to from m
unfolding memcpy
memcpy_lem false to from n m h some_byte = memcpy_g_lem to from n m h
memcpy_lem true to from n m h some_byte = elim (Bool-cases (n % 4 == 0)) [
  | inl fours ↦ rw fours (memcpy_by4_lem to from n m h (ground arith) (ground arith))
  | inr other ↦ elim (Bool-cases (n % 2 == 0)) [
    | inl twos ↦ rw (other, twos) (memcpy_by2_lem to from n m h (ground arith))
    | inr odd ↦ rw (other, odd) (memcpy_g_lem to from n m h)
  ]
]

move_up_lem :
    (n to from : ℕ) (m : Memory) → Forward n to from → move_up n to from m ≡ move n to from m
unfolding move_up
move_up_lem zero to from m h = sym (move-none to from m)
move_up_lem (suc n) to from m h =
    move_up_lem n (to + 1) (from + 1) (move 1 to from m) (ground arith)
    ∙ move-step 1 n (suc n) to from (to + 1) (from + 1) m (move 1 to from m) h (omega arith) refl
        refl refl

last_first :
    (n to from : ℕ) (m : Memory) (k : ℕ)
    → from ≤ to
    → move n to from (move 1 (to + n) (from + n) m) k ≡ move (suc n) to from m k
unfolding move
last_first n to from m k h = elim (Bool-cases (leb to k && ltb k (to + n))) [
  | inl inside ↦
      let early : (leb (to + n) (from + (k - to)) && ltb (from + (k - to)) (to + n + 1)) ≡ false =
        ground arith in
      let all : (leb to k && ltb k (to + suc n)) ≡ true = ground arith in
      rw (inside, early, all) refl
  | inr outside ↦ elim (Bool-cases (leb (to + n) k && ltb k (to + n + 1))) [
    | inl last ↦
        let all : (leb to k && ltb k (to + suc n)) ≡ true = ground arith in
        rw (outside, last, all) (ap m (ground arith))
    | inr beyond ↦
        let all : (leb to k && ltb k (to + suc n)) ≡ false = ground arith in
        rw (outside, beyond, all) refl
  ]
]

move_down_lem :
    (n to from : ℕ) (m : Memory)
    → from ≤ to
    → move_down n (to + n - 1) (from + n - 1) m ≡ move n to from m
unfolding move_down
move_down_lem zero to from m h = sym (move-none to from m)
move_down_lem (suc n) to from m h =
    let t : to + suc n - 1 ≡ to + n = omega arith in
    let f : from + suc n - 1 ≡ from + n = omega arith in
    rw (t, f)
      (move_down_lem n to from (move 1 (to + n) (from + n) m) h ∙ λ i k.
        last_first n to from m k h i)

-- `memmove` copies all the bytes at once, however the two regions overlap, and changes nothing else.
pub memmove_lem : (dest src n : ℕ) (m : Memory) → memmove dest src n m ≡ move n dest src m
unfolding memmove
memmove_lem dest src n m = elim (Bool-cases (ltb dest src)) [
  | inl below ↦ rw below (move_up_lem n dest src m (ground arith))
  | inr above ↦ rw above (move_down_lem n dest src m (ground arith))
]
