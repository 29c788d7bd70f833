-- ===== src/Strings/Copy.antt =====
-- The routines of include/lib/string.h that copy C strings.
pub mod Strcpy
pub mod Strncpy
use valeo.Base.{
  ℕ, zero, suc, ◌+◌, ◌-◌, ◌^◌, Bool, true, false, Option, none, some, ◌==◌, leb, if◌then◌else◌,
}
use valeo.Base.Run.{update}
use valeo.Strings.Text.{Memory}

pub strcpy : (fuel dest src : ℕ) → Memory → Option Memory
strcpy zero dest src m = none
strcpy (suc fuel) dest src m =
    let m' = update m dest (m src) in
    let rest = strcpy fuel (dest + 1) (src + 1) m' in if m src == 0 then some m' else rest

-- The loop of `strncpy` that fills up with zeros
pub pad : (count dest : ℕ) → Memory → Memory
pad zero dest m = m
pad (suc count) dest m = pad count (dest + 1) (update m dest 0)

pub strncpy : (dest src count : ℕ) → Memory → Memory
unfolding pad
strncpy dest src zero m = m
strncpy dest src (suc count) m =
    let m' = update m dest (m src) in
    let rest = strncpy (dest + 1) (src + 1) count m' in
    if m src == 0 then pad count (dest + 1) m' else rest

-- The loop of `strcat` and `strncat` that looks for the end of `dest`
pub find_end : (fuel dest : ℕ) → Memory → Option ℕ
find_end zero dest m = none
find_end (suc fuel) dest m =
    let rest = find_end fuel (dest + 1) m in if m dest == 0 then some dest else rest

copy_to : (fuel src : ℕ) → Memory → Option ℕ → Option Memory
unfolding strcpy
copy_to fuel src m none = none
copy_to fuel src m (some end) = strcpy fuel end src m

-- The second loop of `strcat` is that of `strcpy`.
pub strcat : (fuel dest src : ℕ) → Memory → Option Memory
unfolding find_end copy_to
strcat fuel dest src m = copy_to fuel src m (find_end fuel dest m)

-- The second loop of `strncat`, with the 0 behind it; `decl` and `js` end it also if the count is
-- negative as an int.
pub append : (count dest src : ℕ) → Memory → Memory
append zero dest src m = update m dest 0
append (suc count) dest src m =
    let m' = update m dest (m src) in
    let rest = append count (dest + 1) (src + 1) m' in
    if leb (2 ^ 31) count
    then update m dest 0
    else if m src == 0
    then update m' (dest + 1) 0
    else rest

append_to : (count src : ℕ) → Memory → Option ℕ → Option Memory
unfolding append
append_to count src m none = none
append_to count src m (some end) = some (append count end src m)

pub strncat : (fuel dest src count : ℕ) → Memory → Option Memory
unfolding find_end append_to
strncat fuel dest src count m = append_to count src m (find_end fuel dest m)
