-- ===== src/Text/Scanf/Fields/Word.antt =====
-- The conversion `s` of src/lib/scanf.c reads a word.
use valeo.Base.{
  ℕ, zero, suc, ◌+◌, ◌%◌, ◌^◌, ◌<◌, ◌≡◌, refl, arith, true, false, List, [], ◌∷◌, ◌++◌, some,
  length,
}
use valeo.Text.Ctype.{is_space}
use valeo.Text.Scanf.{Input, u32, next_char}
use valeo.Text.Scanf.Fields.{scan_word}

-- No character is a space, and all are bytes.
abbrev pub AllPlain : List ℕ → Type 0
AllPlain [] = Unit {0}
AllPlain (c ∷ word) = ((is_space c ≡ false) × (c < 256)) × AllPlain word

-- The text ends, or goes on with a space.
abbrev pub EndsWord : List ℕ → Type 0
EndsWord [] = Unit {0}
EndsWord (d ∷ rest) = is_space d ≡ true

-- The characters at the addresses from `p` on
abbrev pub placed : (p : ℕ) → List ℕ → List (ℕ × ℕ)
placed p [] = []
placed p (c ∷ word) = (p, c) ∷ placed (p + 1) word

at_space :
    (width p d : ℕ) (rest : List ℕ) (k : ℕ)
    → is_space d ≡ true
    → scan_word width p (some d) rest k ≡ ([], record { tpch = some d; str = rest; consumed = k })
unfolding scan_word
at_space zero p d rest k space = refl
at_space (suc width) p d [] k space = rw space refl
at_space (suc width) p d (b ∷ rest) k space = rw space refl

pub scan_word-placed :
    (width p c : ℕ) (word rest : List ℕ) (k : ℕ)
    → AllPlain (c ∷ word)
    → EndsWord rest
    → length word < width
    → (i : Input) × (scan_word width p (some c) (word ++ rest) k ≡ (placed p (c ∷ word), i))
unfolding scan_word
scan_word-placed zero p c word rest k plain ends room = absurd (omega arith)
scan_word-placed (suc width) p c [] [] k ((plain, byte), all) ends room =
    let same : c % 2 ^ 8 ≡ c = omega arith in (next_char [] k, rw (plain, same) refl)
scan_word-placed (suc width) p c [] (d ∷ rest) k ((plain, byte), all) ends room =
    let same : c % 2 ^ 8 ≡ c = omega arith in
    (
      record { tpch = some d; str = rest; consumed = u32 (k + 1) },
      rw (plain, same, at_space width (p + 1) d rest (u32 (k + 1)) ends) refl,
    )
scan_word-placed (suc width) p c (d ∷ word) rest k ((plain, byte), all) ends room =
    let same : c % 2 ^ 8 ≡ c = omega arith in
    let (i, done) =
      scan_word-placed width (p + 1) d word rest (u32 (k + 1)) all ends (omega arith) in
    (i, rw (plain, same, done) refl)
