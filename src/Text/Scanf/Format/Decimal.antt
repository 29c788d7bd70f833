-- ===== src/Text/Scanf/Format/Decimal.antt =====
-- `vsscanf` of src/lib/scanf.c reads what `vsnprintf` of src/lib/printf.c prints.
use valeo.Base.{
  ℕ, suc, ◌+◌, ◌-◌, ◌^◌, ◌≤◌, ◌<◌, ◌≡◌, refl, ap, sym, ◌∙◌, arith, true, false, List, [], ◌∷◌, ◌++◌,
  map, length, length-map, append-nil, Bool-cases, inl, inr, ltb, leb,
}
use valeo.Text.Ctype.{is_mask}
use valeo.Text.Directive.{scan, integer, extend, no_flags}
use valeo.Text.Number.{Flags, digits, sign_of, prefix_of}
use valeo.Text.Number.Layout.{number_text, number_text-least}
use valeo.Text.Number.Value.{digits-chars, digits-length}
use valeo.Text.Strtol.Digits.{digit_char, AllBelow, value_from}
use valeo.Text.Scanf.Integer.{scan_integer-positive, scan_integer-negative}
use valeo.Text.Printf.Render.{render}
use valeo.Text.Printf.Bounded.{rendered}
use valeo.Text.Scanf.{u32, next_char, Scanned, scan_integer}
use valeo.Text.Scanf.Format.{
  no_width, State, ended, word, scan_format, percent, read_directive, after, convert, resume,
  convert_integer, finish, vsscanf,
}

abbrev signed : Flags
signed = record no_flags { sign = true }

-- "%d"
abbrev pub decimal : List ℕ
decimal = b'%' ∷ b'd' ∷ []

abbrev stored : (args : ℕ → ℕ) (v k : ℕ) → State
stored args v k = record { input = next_char [] k; arg = 1; n = 1; stores = word (args 0) v ∷ [] }

vsscanf-decimal :
    (args : ℕ → ℕ) (c : ℕ) (text : List ℕ) (v k : ℕ)
    → scan_integer b'd' false no_width (next_char (c ∷ text) 0)
      ≡ record { value = v; counted = true; input = next_char [] k }
    → vsscanf args (c ∷ text) decimal ≡ ended 1 (stored args v k)
unfolding vsscanf scan_format percent read_directive after convert resume convert_integer finish
    is_mask
vsscanf-decimal args c text v k h = rw h refl

rendered-decimal :
    (args : ℕ → ℕ) (string_at : ℕ → List ℕ) (buf size : ℕ) (mem : ℕ → ℕ)
    → rendered args string_at buf size decimal mem
      ≡ (sign_of (extend 32 (args 0)) signed).0
        ++ digits (sign_of (extend 32 (args 0)) signed).1 10 false
unfolding rendered render scan integer is_mask prefix_of
rendered-decimal args string_at buf size mem =
    append-nil (number_text (extend 32 (args 0)) 10 0 0 signed)
    ∙ number_text-least (extend 32 (args 0)) 10 signed refl

few : (n d : ℕ) (ds : List ℕ) → digits n 10 false ≡ map digit_char (d ∷ ds) → length ds < 64
few n d ds same =
    omega (arith, digits-length n 10 false, ap length same, length-map (d ∷ ds) digit_char)

abbrev read : ℕ → ℕ → Scanned
read v k = record { value = v; counted = true; input = next_char [] k }

module _ (args : ℕ → ℕ) (n : ℕ) where
  -- The digits that `number` prints
  read_positive :
      n < 2 ^ 31 → (k : ℕ) × (vsscanf args (digits n 10 false) decimal ≡ ended 1 (stored args n k))
  read_positive small =
      let (d, ds, same, all, value) = digits-chars n 10 (omega arith) (omega arith) in
      rw same (positive d ds all value (few n d ds same))
    where
      positive :
          (d : ℕ) (ds : List ℕ)
          → AllBelow 10 (d ∷ ds)
          → value_from 10 0 (d ∷ ds) ≡ n
          → length ds < 64
          → (k : ℕ) × (vsscanf args (map digit_char (d ∷ ds)) decimal ≡ ended 1 (stored args n k))
      positive d ds all value short =
          let scanned =
            scan_integer-positive [] d ds [] 0 tt all tt (omega (arith, value)) (omega arith) in
          let text = map digit_char ds in
          let whole = append-nil (map digit_char (d ∷ ds)) in
          (
            0 + 0 + suc (length ds),
            vsscanf-decimal args (digit_char d) text n (0 + 0 + suc (length ds)) (
                ap (λ text. scan_integer b'd' false no_width (next_char text 0)) (sym whole)
                ∙ scanned
                ∙ ap (λ v. read v (0 + 0 + suc (length ds))) value),
          )

  -- The digits that it prints behind a minus sign
  read_negative :
      2 ^ 31 ≤ n
      → n < 2 ^ 32
      → (k : ℕ) × (vsscanf args (b'-' ∷ digits (2 ^ 32 - n) 10 false) decimal
          ≡ ended 1 (stored args n k))
  read_negative large small =
      let (d, ds, same, all, value) = digits-chars (2 ^ 32 - n) 10 (omega arith) (omega arith) in
      rw same (negative d ds all value (few (2 ^ 32 - n) d ds same))
    where
      negative :
          (d : ℕ) (ds : List ℕ)
          → AllBelow 10 (d ∷ ds)
          → value_from 10 0 (d ∷ ds) ≡ 2 ^ 32 - n
          → length ds < 64
          → (k : ℕ) × (vsscanf args (b'-' ∷ map digit_char (d ∷ ds)) decimal
              ≡ ended 1 (stored args n k))
      negative d ds all value short =
          let scanned =
            scan_integer-negative [] d ds [] 0 tt all tt (omega (arith, value)) (omega arith) in
          let whole = append-nil (map digit_char (d ∷ ds)) in
          let back : u32 (2 ^ 32 - value_from 10 0 (d ∷ ds)) ≡ n = omega (arith, value) in
          (
            0 + 0 + 1 + suc (length ds),
            vsscanf-decimal args b'-' (map digit_char (d ∷ ds)) n (0 + 0 + 1 + suc (length ds)) (
                ap (λ text. scan_integer b'd' false no_width (next_char (b'-' ∷ text) 0))
                  (sym whole)
                ∙ scanned
                ∙ ap (λ v. read v (0 + 0 + 1 + suc (length ds))) back),
          )

sign_of-positive : (n : ℕ) → n < 2 ^ 31 → sign_of (extend 32 n) signed ≡ ([], n)
unfolding sign_of extend
sign_of-positive n small =
    let low : ltb n (2 ^ 31) ≡ true = ground arith in
    let plus : leb (2 ^ 63) n ≡ false = ground arith in rw (low, plus) refl

sign_of-negative :
    (n : ℕ) → 2 ^ 31 ≤ n → n < 2 ^ 32 → sign_of (extend 32 n) signed ≡ (b'-' ∷ [], 2 ^ 32 - n)
unfolding sign_of extend
sign_of-negative n large small =
    let high : ltb n (2 ^ 31) ≡ false = ground arith in
    let minus : leb (2 ^ 63) (n + (2 ^ 64 - 2 ^ 32)) ≡ true = ground arith in
    rw (high, minus) (ap (λ m. (b'-' ∷ [], m)) (omega arith))

-- Every 32-bit word that `vsnprintf` prints with the format %d, `vsscanf` reads back with the same format from
-- the printed text: it returns 1, and its only store is that word, at the address of its first argument. The printed text does
-- not depend on the strings, the buffer and the memory.
pub vsscanf-rendered :
    (args printed : ℕ → ℕ) (string_at : ℕ → List ℕ) (buf size : ℕ) (mem : ℕ → ℕ)
    → printed 0 < 2 ^ 32
    → (s : State) × (vsscanf args (rendered printed string_at buf size decimal mem) decimal
        ≡ ended 1 s)
      × (s.stores ≡ word (args 0) (printed 0) ∷ [])
vsscanf-rendered args printed string_at buf size mem small =
    let text = rendered-decimal printed string_at buf size mem in
    elim (Bool-cases (ltb (printed 0) (2 ^ 31))) [
      | inl low ↦
          let (k, done) = read_positive args (printed 0) (ground arith) in
          (
            stored args (printed 0) k,
            ap (λ t. vsscanf args t decimal) text
                ∙ ap (λ r. vsscanf args (r.0 ++ digits r.1 10 false) decimal)
                    (sign_of-positive (printed 0) (ground arith))
                ∙ done,
            refl,
          )
      | inr high ↦
          let (k, done) = read_negative args (printed 0) (ground arith) small in
          (
            stored args (printed 0) k,
            ap (λ t. vsscanf args t decimal) text
                ∙ ap (λ r. vsscanf args (r.0 ++ digits r.1 10 false) decimal)
                    (sign_of-negative (printed 0) (ground arith) small)
                ∙ done,
            refl,
          )
    ]
