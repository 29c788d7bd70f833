-- ===== src/Tests/Strings.antt =====
-- The conversions of src/lib at concrete strings.
use valeo.Base.{◌≡◌, arith, true, false, [], ◌∷◌, ◌++◌, some}
use valeo.Text.Ctype.{is_digit, is_mask, is_space}
use valeo.Text.Ctype.Ascii.{is_digit_lem, is_space_lem}
use valeo.Text.Strtol.{digit_value, strtoul}
use valeo.Text.Number.{Flags, Out, digits}
use valeo.Text.Number.Value.{strtoul-printed}

is_digit_lem_example : is_digit b'7' ≡ true
is_digit_lem_example = is_digit_lem b'7' (omega arith)

is_space_lem_example : is_space b'\t' ≡ true
is_space_lem_example = is_space_lem b'\t' (omega arith)

strtoul-printed_example :
    strtoul ([] ++ (digits 4096 8 false ++ b'.' ∷ [])) 8
    ≡ record { value = 4096; end = some (b'.' ∷ []) }
unfolding is_mask digit_value
strtoul-printed_example =
    strtoul-printed 4096 8 [] (b'.' ∷ []) (omega arith) (omega arith) (omega arith) (omega arith) tt
      (omega arith)

-- Zeros in front, a sign, and the alternative form.
abbrev plus_zeros : Flags
plus_zeros = record {
  zero_pad = true;
  sign = true;
  plus = true;
  space = false;
  left = false;
  special = true;
  large = false;
}

abbrev buffer : Out
buffer = record { buf = λ _. 0; at = 0 }
