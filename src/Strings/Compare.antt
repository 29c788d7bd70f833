-- ===== src/Strings/Compare.antt =====
-- The routines of include/lib/string.h that compare bytes, and `strstr`. Their result is an int, of which
-- -1 is the bit pattern 0xffffffff.
pub mod Order
pub mod Strcmp
pub mod Strstr
use valeo.Base.{
  ℕ, zero, suc, ◌+◌, ◌-◌, ◌%◌, ◌^◌, Bool, true, false, Option, none, some, ◌==◌, ltb, leb,
  if◌then◌else◌,
}
use valeo.Strings.Text.{Memory}
use valeo.Strings.Search.{strlen}

abbrev pub minus_one : ℕ
minus_one = 0xffffffff

abbrev pub u32 : ℕ → ℕ
u32 n = n % 2 ^ 32

-- Two ints compare as these natural numbers do.
abbrev pub biased : ℕ → ℕ
biased x = (x + 2 ^ 31) % 2 ^ 32

-- `movl $1`, and `negl` unless the byte at `ct` is below that at `cs`
abbrev pub sign : (a b : ℕ) → ℕ
sign a b = if ltb b a then 1 else minus_one

module _ (m : Memory) where
  pub strcmp : (fuel cs ct : ℕ) → Option ℕ
  strcmp zero cs ct = none
  strcmp (suc fuel) cs ct =
      let rest = strcmp fuel (cs + 1) (ct + 1) in
      if m cs == m ct then (if m cs == 0 then some 0 else rest) else some (sign (m cs) (m ct))

  -- `decl` and `js` end the loop also if the count is negative as an int.
  pub strncmp : (cs ct count : ℕ) → ℕ
  strncmp cs ct zero = 0
  strncmp cs ct (suc count) =
      let rest = strncmp (cs + 1) (ct + 1) count in
      if leb (2 ^ 31) count
      then 0
      else if m cs == m ct
      then (if m cs == 0 then 0 else rest)
      else sign (m cs) (m ct)

  -- `repe cmpsb`: the zero flag and the carry flag, as they are at the start and at the end
  pub cmpsb : (count : ℕ) (flags : Bool × Bool) (cs ct : ℕ) → Bool × Bool
  cmpsb zero flags cs ct = flags
  cmpsb (suc count) flags cs ct =
      let flags : Bool × Bool = (m cs == m ct, ltb (m cs) (m ct)) in
      let rest = cmpsb count flags (cs + 1) (ct + 1) in if m cs == m ct then rest else flags

  -- `flags` are those that the processor has at the start.
  pub memcmp : (flags : Bool × Bool) (cs ct count : ℕ) → ℕ
  unfolding cmpsb
  memcmp flags cs ct count =
      let (zf, cf) = cmpsb count flags cs ct in if zf then 0 else if cf then minus_one else 1

  -- The loop of `strstr`; `none` means that the fuel ran out. The lengths are ints as bit patterns, and
  -- `memcmp` takes the second as an unsigned number.
  pub strstr_loop : (flags : Bool × Bool) (fuel l1 l2 s1 s2 : ℕ) → Option ℕ
  unfolding memcmp
  strstr_loop flags zero l1 l2 s1 s2 = none
  strstr_loop flags (suc fuel) l1 l2 s1 s2 =
      let rest = strstr_loop flags fuel (u32 (l1 + 2 ^ 32 - 1)) l2 (s1 + 1) s2 in
      if leb (biased l2) (biased l1)
      then (if memcmp flags s1 s2 l2 == 0 then some s1 else rest)
      else some 0

  strstr_from : (flags : Bool × Bool) (fuel l2 s1 s2 : ℕ) → Option ℕ → Option ℕ
  unfolding strstr_loop
  strstr_from flags fuel l2 s1 s2 none = none
  strstr_from flags fuel l2 s1 s2 (some l1) = strstr_loop flags fuel (u32 l1) l2 s1 s2

  strstr_for : (flags : Bool × Bool) (fuel s1 s2 : ℕ) → Option ℕ → Option ℕ
  unfolding strstr_from
  strstr_for flags fuel s1 s2 none = none
  strstr_for flags fuel s1 s2 (some l2) =
      if u32 l2 == 0 then some s1 else strstr_from flags fuel (u32 l2) s1 s2 (strlen m fuel s1)

  pub strstr : (flags : Bool × Bool) (fuel s1 s2 : ℕ) → Option ℕ
  unfolding strstr_for
  strstr flags fuel s1 s2 = strstr_for flags fuel s1 s2 (strlen m fuel s2)
