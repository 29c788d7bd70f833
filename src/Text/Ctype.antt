-- ===== src/Text/Ctype.antt =====
-- The character classes of src/lib/ctype.c and include/lib/printf.h.
pub mod Ascii
use valeo.Base.{
  ℕ, zero, suc, ◌+◌, ◌-◌, ◌*◌, ◌%◌, ◌^◌, Bool, true, false, List, [], ◌∷◌, ◌++◌, not, ◌==◌, bit_and,
  bit_or, if◌then◌else◌, replicate, get_or,
}

abbrev pub upper_flag : ℕ
upper_flag = 0x01

abbrev pub lower_flag : ℕ
lower_flag = 0x02

abbrev pub digit_flag : ℕ
digit_flag = 0x04

abbrev pub control_flag : ℕ
control_flag = 0x08

abbrev pub punct_flag : ℕ
punct_flag = 0x10

abbrev pub space_flag : ℕ
space_flag = 0x20

abbrev pub hex_flag : ℕ
hex_flag = 0x40

abbrev pub hard_space_flag : ℕ
hard_space_flag = 0x80

-- `_ctype`, as the runs of equal entries that its rows are made of.
abbrev pub table : List ℕ
table =
    replicate 9 control_flag
    ++ (replicate 5 (bit_or control_flag space_flag)
        ++ (replicate 18 control_flag
            ++ (bit_or space_flag hard_space_flag ∷ replicate 15 punct_flag
                ++ (replicate 10 digit_flag
                    ++ (replicate 7 punct_flag
                        ++ (replicate 6 (bit_or upper_flag hex_flag)
                            ++ (replicate 20 upper_flag
                                ++ (replicate 6 punct_flag
                                    ++ (replicate 6 (bit_or lower_flag hex_flag)
                                        ++ (replicate 20 lower_flag
                                            ++ (replicate 4 punct_flag
                                                ++ (control_flag ∷ replicate 32 0
                                                    ++ (bit_or space_flag hard_space_flag
                                                          ∷ replicate 31 punct_flag
                                                        ++ (replicate 23 upper_flag
                                                            ++ (punct_flag ∷ replicate 7 upper_flag
                                                            ++ (replicate 24 lower_flag
                                                            ++ (punct_flag
                                                            ∷ replicate 8
                                                            lower_flag)))))))))))))))))

-- `__ismask (x) & flags) != 0`
unfoldable pub is_mask : (flags c : ℕ) → Bool
is_mask flags c = not (bit_and (get_or table (c % 2 ^ 8) 0) flags == 0)

abbrev pub is_digit : ℕ → Bool
is_digit = is_mask digit_flag

abbrev pub is_lower : ℕ → Bool
is_lower = is_mask lower_flag

abbrev pub is_space : ℕ → Bool
is_space = is_mask space_flag

abbrev pub is_upper : ℕ → Bool
is_upper = is_mask upper_flag

abbrev pub is_alpha : ℕ → Bool
is_alpha = is_mask (bit_or upper_flag lower_flag)

abbrev pub is_alnum : ℕ → Bool
is_alnum = is_mask (bit_or (bit_or upper_flag lower_flag) digit_flag)

abbrev pub is_xdigit : ℕ → Bool
is_xdigit = is_mask (bit_or digit_flag hex_flag)

-- `__tolower` and `__toupper`, on an unsigned char
pub to_lower : ℕ → ℕ
unfolding is_mask
to_lower c = if is_upper c then (c + 256 - b'A' + b'a') % 2 ^ 8 else c

pub to_upper : ℕ → ℕ
unfolding is_mask
to_upper c = if is_lower c then (c + 256 - (b'a' - b'A')) % 2 ^ 8 else c
