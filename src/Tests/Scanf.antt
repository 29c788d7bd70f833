-- ===== src/Tests/Scanf.antt =====
-- `vsscanf` of src/lib/scanf.c at concrete strings and formats.
use valeo.Base.{ℕ, ◌+◌, ◌*◌, ◌≡◌, refl, arith, List, [], ◌∷◌}
use valeo.Text.Scanf.Format.{State, word, byte, ended, vsscanf}
use valeo.Text.Scanf.Format.Decimal.{decimal, vsscanf-rendered}
use valeo.Text.Scanf.Format.Total.{Finishes, vsscanf-Finishes}
use valeo.Text.Ctype.{is_mask}
use valeo.Text.Scanf.Fields.Word.{AllPlain, EndsWord}
use valeo.Text.Scanf.Format.Word.{word_format, vsscanf-word}
use valeo.Text.Printf.Bounded.{rendered}

abbrev pointer : ℕ → ℕ
pointer k = 4096 + 4 * k

abbrev no_strings : ℕ → List ℕ
no_strings p = []

-- -42
abbrev minus_42 : ℕ → ℕ
minus_42 k = 4294967254

vsscanf-rendered_example :
    (s : State) × (vsscanf pointer (rendered minus_42 no_strings 64 16 decimal (λ _. 0)) decimal
      ≡ ended 1 s)
    × (s.stores ≡ word (pointer 0) 4294967254 ∷ [])
vsscanf-rendered_example = vsscanf-rendered pointer minus_42 no_strings 64 16 (λ _. 0) (omega arith)

-- "%2d %s"
abbrev two_digits : List ℕ
two_digits = b'%' ∷ b'2' ∷ b'd' ∷ b' ' ∷ b'%' ∷ b's' ∷ []

vsscanf-Finishes_example : Finishes (vsscanf pointer (b'4' ∷ b'2' ∷ b'!' ∷ []) two_digits)
vsscanf-Finishes_example =
    vsscanf-Finishes pointer (b'4' ∷ b'2' ∷ b'!' ∷ []) two_digits
      (omega arith, (omega arith, (omega arith, (omega arith, (omega arith, (omega arith, tt))))))

ab-AllPlain : AllPlain (b'a' ∷ b'b' ∷ [])
unfolding is_mask
ab-AllPlain = ((refl, omega arith), ((refl, omega arith), tt))

space-EndsWord : EndsWord (b' ' ∷ b'c' ∷ [])
unfolding is_mask
space-EndsWord = refl

-- "ab c"
vsscanf-word_example :
    (s : State) × (vsscanf pointer (b'a' ∷ b'b' ∷ b' ' ∷ b'c' ∷ []) word_format ≡ ended 1 s)
    × (s.stores ≡ byte 4096 b'a' ∷ byte 4097 b'b' ∷ byte 4098 0 ∷ [])
vsscanf-word_example =
    vsscanf-word pointer b'a' (b'b' ∷ []) (b' ' ∷ b'c' ∷ []) ab-AllPlain space-EndsWord
      (omega arith)
