-- ===== src/Strings/Block.antt =====
-- The routines of include/lib/string.h that copy and fill blocks of memory.
pub mod Moves
pub mod Fills
use valeo.Base.{
  ℕ, zero, suc, ◌+◌, ◌-◌, ◌*◌, ◌/◌, ◌%◌, ◌^◌, Bool, true, false, ◌==◌, ltb, leb, ◌&&◌,
  if◌then◌else◌,
}
use valeo.Strings.Text.{Memory}

-- `w` bytes at once: all are read before the first is written.
unfoldable pub move : (w to from : ℕ) → Memory → Memory
move w to from m k = if leb to k && ltb k (to + w) then m (from + (k - to)) else m k

-- A loop that counts down at its end, and so has 2 ^ 32 rounds for a count of 0.
pub rounds : (count : ℕ) → ℕ
rounds count = if count == 0 then 2 ^ 32 else count

-- `rep movsl`, and the loop that does the same
pub move_longs : (rounds to from : ℕ) → Memory → Memory
unfolding move
move_longs zero to from m = m
move_longs (suc r) to from m = move_longs r (to + 4) (from + 4) (move 4 to from m)

-- `__memcpy_by4`
pub memcpy_by4 : (to from n : ℕ) → Memory → Memory
unfolding move_longs rounds
memcpy_by4 to from n m = move_longs (rounds (n / 4)) to from m

-- `__memcpy_by2`
pub memcpy_by2 : (to from n : ℕ) → Memory → Memory
unfolding move_longs move
memcpy_by2 to from n m =
    let r = n / 2 / 2 in move 2 (to + 4 * r) (from + 4 * r) (move_longs r to from m)

-- `__memcpy_g`
pub memcpy_g : (to from n : ℕ) → Memory → Memory
unfolding move_longs move
memcpy_g to from n m =
    let byte = n % 2 in
    let m = if byte == 1 then move 1 to from m else m in
    let word = n / 2 % 2 in
    let m = if word == 1 then move 2 (to + byte) (from + byte) m else m in
    move_longs (n / 2 / 2) (to + byte + 2 * word) (from + byte + 2 * word) m

-- `memcpy`; `constant` is what `__builtin_constant_p` says of the count.
pub memcpy : (constant : Bool) (to from n : ℕ) → Memory → Memory
unfolding memcpy_by4 memcpy_by2 memcpy_g
memcpy constant to from n m =
    if constant
    then (if n % 4 == 0
        then memcpy_by4 to from n m
        else if n % 2 == 0
        then memcpy_by2 to from n m
        else memcpy_g to from n m)
    else memcpy_g to from n m

-- `rep movsb`, upwards and, behind `std`, downwards
pub move_up : (n to from : ℕ) → Memory → Memory
unfolding move
move_up zero to from m = m
move_up (suc n) to from m = move_up n (to + 1) (from + 1) (move 1 to from m)

pub move_down : (n to from : ℕ) → Memory → Memory
unfolding move
move_down zero to from m = m
move_down (suc n) to from m = move_down n (to - 1) (from - 1) (move 1 to from m)

-- `memmove`
pub memmove : (dest src n : ℕ) → Memory → Memory
unfolding move_up move_down
memmove dest src n m =
    if ltb dest src then move_up n dest src m else move_down n (dest + n - 1) (src + n - 1) m

-- A store of the lowest `w` bytes of `v`
unfoldable pub store : (w v to : ℕ) → Memory → Memory
store w v to m k = if leb to k && ltb k (to + w) then v / 2 ^ (8 * (k - to)) % 2 ^ 8 else m k

-- `rep stosw` and the loop over four bytes
pub store_units : (w v rounds to : ℕ) → Memory → Memory
unfolding store
store_units w v zero to m = m
store_units w v (suc r) to m = store_units w v r (to + w) (store w v to m)

-- `0x01010101UL * ( unsigned char ) c`
abbrev pub four_times : ℕ → ℕ
four_times c = 0x01010101 * c % 2 ^ 32

-- The value that `movb`, `pushw`, `shll` and `popw` make of `c`
abbrev pub doubled_twice : ℕ → ℕ
doubled_twice c = let word = c % 2 ^ 8 + 2 ^ 8 * (c % 2 ^ 8) in word * 2 ^ 16 + word

-- `__memset_cc_by4` and `__memset_gc_by4`
pub memset_by4 : (v s count : ℕ) → Memory → Memory
unfolding store_units rounds
memset_by4 v s count m = store_units 4 v (rounds (count / 4)) s m

-- `__memset_cc_by2` and `__memset_gc_by2`
pub memset_by2 : (v s count : ℕ) → Memory → Memory
unfolding store_units store
memset_by2 v s count m = let r = count / 2 / 2 in store 2 v (s + 4 * r) (store_units 4 v r s m)

-- `__memset_cg`
pub memset_cg : (s c count : ℕ) → Memory → Memory
unfolding store_units store
memset_cg s c count m =
    let v = 0x0101 * c in
    let r = count / 2 in
    let m = store_units 2 v r s m in if count % 2 == 1 then store 1 v (s + 2 * r) m else m

-- `memset` of a constant byte; `constant` is what `__builtin_constant_p` says of the count.
pub memset : (constant : Bool) (s c count : ℕ) → Memory → Memory
unfolding memset_by4 memset_by2 memset_cg
memset constant s c count m =
    if constant
    then (if count % 4 == 0
        then memset_by4 (four_times c) s count m
        else if count % 2 == 0
        then memset_by2 (four_times c) s count m
        else memset_cg s c count m)
    else memset_cg s c count m

-- `memset` of another byte, for a constant count that is even: `__memset_gc`.
pub memset_gc : (s c count : ℕ) → Memory → Memory
unfolding memset_by4 memset_by2
memset_gc s c count m =
    if count % 4 == 0
    then memset_by4 (doubled_twice c) s count m
    else memset_by2 (doubled_twice c) s count m
