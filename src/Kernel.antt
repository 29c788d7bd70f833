-- ===== src/Kernel.antt =====
-- `Kernel_ParseParameters` of src/kernel-main.c. The parameters are the list of the bytes in front of
-- the terminating 0; an index into them is the text from there on.
pub mod Quiet
pub mod Start
use valeo.Base.{
  ℕ, zero, suc, ◌+◌, Bool, true, false, List, [], ◌∷◌, Option, none, some, ◌==◌, ◌&&◌, ◌||◌,
  if◌then◌else◌, length,
}
use valeo.Text.Ctype.{is_space}

-- `while ( isspace ( … ) ) i++;`
pub skip_spaces : List ℕ → List ℕ
skip_spaces [] = []
skip_spaces (c ∷ text) = let rest = skip_spaces text in if is_space c then rest else c ∷ text

-- The scan to the next space or the end.
pub skip_word : List ℕ → List ℕ
skip_word [] = []
skip_word (c ∷ text) = let rest = skip_word text in if is_space c then c ∷ text else rest

-- `strncmp` with the whole of its second argument finds no difference.
pub starts_with : (prefix text : List ℕ) → Bool
starts_with [] text = true
starts_with (p ∷ prefix) [] = false
starts_with (p ∷ prefix) (c ∷ text) = (c == p) && starts_with prefix text

abbrev pub quiet_word : List ℕ
quiet_word = b'q' ∷ b'u' ∷ b'i' ∷ b'e' ∷ b't' ∷ []

-- The `do` loop, with `g_bQuietMode`; `none` means that the fuel ran out.
pub scan : (fuel : ℕ) (quiet : Bool) → List ℕ → Option Bool
unfolding skip_spaces skip_word starts_with
scan zero quiet text = none
scan (suc fuel) quiet text =
    let command = skip_spaces text in
    let next = skip_word command in
    let quiet' = quiet || starts_with quiet_word command in
    let rest = scan fuel quiet' next in if length next == 0 then some quiet' else rest

-- `Kernel_ParseParameters`: a round of the loop for each byte and one more are enough.
pub parse_parameters : (quiet : Bool) → List ℕ → Option Bool
unfolding scan skip_word
parse_parameters quiet text =
    let parameters = skip_word text in
    if length parameters == 0 then some quiet else scan (suc (length text)) quiet parameters
