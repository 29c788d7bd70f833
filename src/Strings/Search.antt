-- ===== src/Strings/Search.antt =====
-- The routines of include/lib/string.h that look for a byte. The null pointer is 0.
pub mod Strlen
pub mod Strchr
pub mod Strcspn
use valeo.Base.{
  ℕ, zero, suc, ◌+◌, ◌-◌, ◌%◌, ◌^◌, Bool, true, false, Option, none, some, ◌==◌, if◌then◌else◌,
}
use valeo.Strings.Text.{Memory}

module _ (m : Memory) where
  -- The loop of `strlen`, up to the place behind the 0
  pub strlen_loop : (fuel tmp : ℕ) → Option ℕ
  strlen_loop zero tmp = none
  strlen_loop (suc fuel) tmp =
      let rest = strlen_loop fuel (tmp + 1) in if m tmp == 0 then some (tmp + 1) else rest

  distance : (s : ℕ) → Option ℕ → Option ℕ
  distance s none = none
  distance s (some tmp) = some (tmp - s - 1)

  pub strlen : (fuel s : ℕ) → Option ℕ
  unfolding strlen_loop distance
  strlen fuel s = distance s (strlen_loop fuel s)

  pub strnlen_loop : (count p : ℕ) → ℕ
  strnlen_loop zero p = p
  strnlen_loop (suc count) p = let rest = strnlen_loop count (p + 1) in if m p == 0 then p else rest

  pub strnlen : (s count : ℕ) → ℕ
  unfolding strnlen_loop
  strnlen s count = strnlen_loop count s - s

  pub strchr : (fuel s c : ℕ) → Option ℕ
  strchr zero s c = none
  strchr (suc fuel) s c =
      let rest = strchr fuel (s + 1) c in
      if m s == c % 2 ^ 8 then some s else if m s == 0 then some 0 else rest

  -- The loop of `strrchr`, with the result so far
  pub strrchr_loop : (fuel s c res : ℕ) → Option ℕ
  strrchr_loop zero s c res = none
  strrchr_loop (suc fuel) s c res =
      let res = if m s == c % 2 ^ 8 then s else res in
      let rest = strrchr_loop fuel (s + 1) c res in if m s == 0 then some res else rest

  pub strrchr : (fuel s c : ℕ) → Option ℕ
  unfolding strrchr_loop
  strrchr fuel s c = strrchr_loop fuel s c 0

  -- `repne scasb`: the zero flag, which is clear at the start, and the place behind the last byte read
  pub scasb : (count c p : ℕ) → Bool × ℕ
  scasb zero c p = (false, p)
  scasb (suc count) c p =
      let rest = scasb count c (p + 1) in if m p == c then (true, p + 1) else rest

  pub memchr : (s c count : ℕ) → ℕ
  unfolding scasb
  memchr s c count =
      let (found, p) = scasb count (c % 2 ^ 8) s in
      if count == 0 then 0 else (if found then p else 1) - 1

  pub memscan : (s c size : ℕ) → ℕ
  unfolding scasb
  memscan s c size =
      let (found, p) = scasb size (c % 2 ^ 8) s in
      if size == 0 then s else if found then p - 1 else p

  -- The second loop of `strcspn`, up to the place that `decl` makes of the one behind the last byte
  pub strcspn_loop : (fuel cs ct len : ℕ) → Option ℕ
  unfolding scasb
  strcspn_loop zero cs ct len = none
  strcspn_loop (suc fuel) cs ct len =
      let rest = strcspn_loop fuel (cs + 1) ct len in
      if m cs == 0 then some cs else if (scasb len (m cs) ct).0 then some cs else rest

  offset : (cs : ℕ) → Option ℕ → Option ℕ
  offset cs none = none
  offset cs (some p) = some (p - cs)

  -- The first `repne scasb` counts the bytes of `ct` and its 0.
  pub strcspn : (fuel cs ct : ℕ) → Option ℕ
  unfolding scasb strcspn_loop offset
  strcspn fuel cs ct =
      let len = (scasb (2 ^ 32 - 1) 0 ct).1 - ct - 1 in offset cs (strcspn_loop fuel cs ct len)
