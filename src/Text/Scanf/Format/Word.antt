-- ===== src/Text/Scanf/Format/Word.antt =====
-- `vsscanf` of src/lib/scanf.c reads a word with `%s`.
use valeo.Base.{
  ℕ, suc, ◌+◌, ◌^◌, ◌<◌, ◌≡◌, refl, ap, arith, List, [], ◌∷◌, ◌++◌, Option, none, some, length,
}
use valeo.Text.Ctype.{is_mask}
use valeo.Text.Scanf.Integer.{skip-plain}
use valeo.Text.Scanf.Fields.Word.{AllPlain, EndsWord, placed, scan_word-placed}
use valeo.Text.Scanf.Format.{
  State, Store, byte, ended, bytes, no_width, vsscanf, scan_format, percent, read_directive, after,
  convert, resume, convert_word, finish,
}

-- "%s"
abbrev pub word_format : List ℕ
word_format = b'%' ∷ b's' ∷ []

length-placed : (p : ℕ) (word : List ℕ) → length (placed p word) ≡ length word
length-placed p [] = refl
length-placed p (c ∷ word) = ap suc (length-placed (p + 1) word)

finish-one :
    (tpch : Option ℕ) (str : List ℕ) (consumed arg : ℕ) (stores : List Store)
    → (s : State) × (finish (record {
      input = record { tpch = tpch; str = str; consumed = consumed };
      arg = arg;
      n = 1;
      stores = stores;
    })
        ≡ ended 1 s)
      × (s.stores ≡ stores)
unfolding finish
finish-one none str consumed arg stores = (_, refl, refl)
finish-one (some c) str consumed arg stores = (_, refl, refl)

-- A word of at least one and fewer than 2 ^ 32 characters, none of them a space, stands at the start of the string, which ends
-- behind it or goes on with a space. With the format %s, `vsscanf` returns 1, and it has stored the
-- characters from the address of its first argument on, and a 0 behind them.
pub vsscanf-word :
    (args : ℕ → ℕ) (c : ℕ) (word rest : List ℕ)
    → AllPlain (c ∷ word)
    → EndsWord rest
    → length word + 1 < 2 ^ 32
    → (s : State) × (vsscanf args (c ∷ word ++ rest) word_format ≡ ended 1 s)
      × (s.stores ≡ bytes (placed (args 0) (c ∷ word)) ++ byte (args 0 + suc (length word)) 0 ∷ [])
unfolding vsscanf scan_format percent read_directive after convert resume convert_word is_mask
vsscanf-word args c word rest plain ends short =
    let (i, done) = scan_word-placed no_width (args 0) c word rest 1 plain ends (omega arith) in
    let stores = bytes (placed (args 0) (c ∷ word)) ++ byte (args 0 + suc (length word)) 0 ∷ [] in
    let (s, ends_one, same) = finish-one i.tpch i.str i.consumed 1 stores in
    let skipped = skip-plain c (word ++ rest) 0 plain.0.0 in
    let count = ap (λ n. byte (args 0 + n) 0) (length-placed (args 0) (c ∷ word)) in
    (s, rw (skipped, done, count) ends_one, same)
