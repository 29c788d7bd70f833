-- ===== src/Kernel/Quiet.antt =====
-- What `Kernel_ParseParameters` of src/kernel-main.c looks for: the word behind a space.
use valeo.Base.{
  ℕ, zero, suc, ◌+◌, ◌≤◌, ◌<◌, ◌≡◌, refl, ap, sym, ◌∙◌, arith, Bool, true, false, List, [], ◌∷◌,
  some, ◌==◌, ◌||◌, if◌then◌else◌, length, Bool-cases, inl, inr,
}
use valeo.Text.Ctype.{is_space, is_mask}
use valeo.Kernel.{skip_spaces, skip_word, starts_with, quiet_word, scan, parse_parameters}

-- Somewhere `quiet` stands directly behind a space.
pub has_quiet : List ℕ → Bool
has_quiet [] = false
has_quiet (c ∷ text) =
    if is_space c then starts_with quiet_word text || has_quiet text else has_quiet text

has_quiet-skip_word : (text : List ℕ) → has_quiet (skip_word text) ≡ has_quiet text
unfolding has_quiet skip_word
has_quiet-skip_word [] = refl
has_quiet-skip_word (c ∷ text) = elim (Bool-cases (is_space c)) [
  | inl space ↦ rw space (rw space refl)
  | inr other ↦ rw other (has_quiet-skip_word text)
]

-- A word does not start with a space.
space_no_word :
    (c : ℕ) (text : List ℕ) → is_space c ≡ true → starts_with quiet_word (c ∷ text) ≡ false
unfolding starts_with is_mask
space_no_word c text space = elim (Bool-cases (c == b'q')) [
  | inl q ↦
      let e : c ≡ b'q' = ground arith in
      let f : is_space c ≡ false = ap (λ x. is_space x) e in ground arith
  | inr other ↦ rw other refl
]

-- One round: the spaces and a word.
round_lem :
    (text : List ℕ)
    → (starts_with quiet_word (skip_spaces text) || has_quiet (skip_word (skip_spaces text)))
      ≡ (starts_with quiet_word text || has_quiet text)
unfolding skip_spaces has_quiet
round_lem [] = rw (has_quiet-skip_word []) refl
round_lem (c ∷ text) = elim (Bool-cases (is_space c)) [
  | inl space ↦ rw (space, space_no_word c text space) (round_lem text)
  | inr other ↦ rw (other, has_quiet-skip_word (c ∷ text), other) refl
]

length-skip_spaces : (text : List ℕ) → length (skip_spaces text) ≤ length text
unfolding skip_spaces
length-skip_spaces [] = omega arith
length-skip_spaces (c ∷ text) = ground (arith, length-skip_spaces text)

length-skip_word : (text : List ℕ) → length (skip_word text) ≤ length text
unfolding skip_word
length-skip_word [] = omega arith
length-skip_word (c ∷ text) = ground (arith, length-skip_word text)

-- Behind a word there is no more text, or a space.
shorter :
    (text : List ℕ)
    → length (skip_word (skip_spaces (skip_word text))) + 1
      ≤ length (skip_word text) + (if length (skip_word text) == 0 then 1 else 0)
unfolding skip_word skip_spaces
shorter [] = omega arith
shorter (c ∷ text) = elim (Bool-cases (is_space c)) [
  | inl space ↦
      rw (space, space)
        (ground (arith, length-skip_word (skip_spaces text), length-skip_spaces text))
  | inr other ↦ rw other (shorter text)
]

word_end : (text : List ℕ) → starts_with quiet_word (skip_word text) ≡ false
unfolding skip_word starts_with
word_end [] = refl
word_end (c ∷ text) = elim (Bool-cases (is_space c)) [
  | inl space ↦ rw space (space_no_word c text space)
  | inr other ↦ rw other (word_end text)
]

empty_no_quiet : (text : List ℕ) → (length text == 0) ≡ true → has_quiet text ≡ false
unfolding has_quiet
empty_no_quiet [] h = refl
empty_no_quiet (c ∷ text) h = ground arith

-- The loop on what is behind a word.
scan_lem :
    (fuel : ℕ) (quiet : Bool) (text : List ℕ)
    → length (skip_word text) < fuel
    → scan fuel quiet (skip_word text) ≡ some (quiet || has_quiet (skip_word text))
unfolding scan
scan_lem zero quiet text room = absurd (omega arith)
scan_lem (suc fuel) quiet text room =
    let command = skip_spaces (skip_word text) in
    let whole = round_lem (skip_word text) in
    let behind = word_end text in
    elim (Bool-cases (length (skip_word command) == 0)) [
      | inl last ↦
          let none_left = empty_no_quiet (skip_word command) last in
          rw last (ap some (ground (arith, whole, behind, none_left)))
      | inr more ↦ rw more (
          scan_lem fuel (quiet || starts_with quiet_word command) command
            (ground (arith, shorter text))
          ∙ ap some (ground (arith, whole, behind)))
    ]

-- `Kernel_ParseParameters` comes to its end for every text, and quiet mode is on afterwards exactly if
-- it was on before or the text has `quiet` directly behind a space.
pub parse_parameters_lem :
    (quiet : Bool) (text : List ℕ) → parse_parameters quiet text ≡ some (quiet || has_quiet text)
unfolding parse_parameters
parse_parameters_lem quiet text = elim (Bool-cases (length (skip_word text) == 0)) [
  | inl last ↦
      let none_left = empty_no_quiet (skip_word text) last in
      rw last (ap some (ground (arith, none_left, has_quiet-skip_word text)))
  | inr more ↦
      rw (more, sym (has_quiet-skip_word text))
        (scan_lem (suc (length text)) quiet text (omega (arith, length-skip_word text)))
]
