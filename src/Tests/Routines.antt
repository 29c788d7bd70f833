-- ===== src/Tests/Routines.antt =====
-- The routines of include/lib/string.h at concrete strings and blocks.
use valeo.Base.{
  ℕ, ◌^◌, ◌<◌, ◌≤◌, ◌≡◌, ◌⊎◌, ◌↔◌, inl, inr, refl, arith, true, false, List, [], ◌∷◌, ◌++◌, some,
  length, take, ◌==◌, if◌then◌else◌,
}
use valeo.Strings.Text.{Memory, IsString}
use valeo.Strings.Block.{move, memcpy, memmove, memset}
use valeo.Strings.Block.Moves.{memcpy_lem, memmove_lem}
use valeo.Strings.Block.Fills.{fill, memset_lem}
use valeo.Strings.Compare.{strcmp, strncmp, strstr}
use valeo.Strings.Compare.Order.{order}
use valeo.Strings.Compare.Strcmp.{strcmp_lem, strncmp_lem}
use valeo.Strings.Compare.Strstr.{FirstPlace, strstr_lem}
use valeo.Strings.Copy.{strcpy, strncat}
use valeo.Strings.Copy.Strcpy.{Only, strcpy_lem}
use valeo.Strings.Copy.Strncpy.{written, strncat_lem}

-- "ab" at 16 and "b" at 32, in memory of which the other bytes are 7
abbrev stock : Memory
stock k =
    if k == 16
    then b'a'
    else if k == 17
    then b'b'
    else if k == 18
    then 0
    else if k == 32
    then b'b'
    else if k == 33
    then 0
    else 7

abbrev ab : List ℕ
ab = b'a' ∷ b'b' ∷ []

abbrev just_b : List ℕ
just_b = b'b' ∷ []

ab-IsString : IsString stock 16 ab
ab-IsString = record {
  bytes = (refl, (refl, tt));
  no_zero = (omega arith, (omega arith, tt));
  ends = refl;
}

just_b-IsString : IsString stock 32 just_b
just_b-IsString = record { bytes = (refl, tt); no_zero = (omega arith, tt); ends = refl }

memmove_lem_example : memmove 17 16 2 stock ≡ move 2 17 16 stock
memmove_lem_example = memmove_lem 17 16 2 stock

memcpy_lem_example : memcpy true 40 16 7 stock ≡ move 7 40 16 stock
memcpy_lem_example = memcpy_lem true 40 16 7 stock (inr (omega arith)) (inr (omega arith))

memset_lem_example : memset true 40 b'x' 6 stock ≡ fill 6 b'x' 40 stock
memset_lem_example = memset_lem true 40 b'x' 6 stock (omega arith) (inr (omega arith))

strcpy_lem_example :
    (m' : Memory) × (strcpy 3 40 16 stock ≡ some m') × IsString m' 40 ab × Only stock m' 40 3
strcpy_lem_example = strcpy_lem 3 40 16 ab stock ab-IsString (omega arith) (inr (omega arith))

strncat_lem_example :
    (m' : Memory) × (strncat 3 16 32 5 stock ≡ some m')
    × IsString m' 16 (ab ++ take 5 just_b)
    × Only stock m' 18 (written 5 just_b)
    × (length just_b < 5 → m' 20 ≡ 0)
strncat_lem_example =
    strncat_lem 3 16 32 5 ab just_b stock ab-IsString just_b-IsString (omega arith) (omega arith)
      (inl (omega arith))

strcmp_lem_example :
    (strcmp stock 3 16 32 ≡ some (order ab just_b)) × ((order ab just_b ≡ 0) ↔ (ab ≡ just_b))
strcmp_lem_example = strcmp_lem stock 3 16 32 ab just_b ab-IsString just_b-IsString (omega arith)

strncmp_lem_example :
    ((1 ≤ 2 ^ 31) × (strncmp stock 17 32 1 ≡ order (take 1 just_b) (take 1 just_b)))
    ⊎ ((2 ^ 31 < 1) × (strncmp stock 17 32 1 ≡ 0))
strncmp_lem_example =
    strncmp_lem stock 17 32 1 just_b just_b
      (record { bytes = (refl, tt); no_zero = (omega arith, tt); ends = refl }) just_b-IsString

strstr_lem_example :
    (r : ℕ) × (strstr stock (true, false) 3 16 32 ≡ some r) × FirstPlace stock 2 1 16 32 r
strstr_lem_example =
    strstr_lem stock (true, false) 3 16 32 ab just_b ab-IsString just_b-IsString (omega arith)
      (omega arith) (omega arith) (omega arith)
