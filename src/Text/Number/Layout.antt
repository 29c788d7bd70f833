-- ===== src/Text/Number/Layout.antt =====
-- What `number` of src/lib/printf.c writes: one text, in front of the end of the buffer.
use valeo.Base.{
  ℕ, zero, suc, ◌+◌, ◌-◌, ◌^◌, ◌≤◌, ◌<◌, ◌≡◌, refl, ap, ◌∙◌, arith, Bool, true, false, List, [],
  ◌∷◌, ◌++◌, ◌==◌, ltb, leb, ◌&&◌, ◌||◌, not, if◌then◌else◌, ◌⊎◌, some, max, length, replicate,
  get_or, length-append, length-replicate, append-nil,
}
use valeo.Base.Run.{update}
use valeo.Text.Number.{Flags, Out, put, put_all, digits, sign_of, prefix_of, number}

pub put_all-append :
    (end : ℕ) (a b : List ℕ) (o : Out) → put_all end b (put_all end a o) ≡ put_all end (a ++ b) o
unfolding put_all
put_all-append end [] b o = refl
put_all-append end (c ∷ a) b o = put_all-append end a b (put end c o)

pub put_all-none : (end : ℕ) (o : Out) → put_all end [] o ≡ o
unfolding put_all
put_all-none end o = refl

pub put_all-one : (end c : ℕ) (o : Out) → put end c o ≡ put_all end (c ∷ []) o
unfolding put_all
put_all-one end c o = refl

if-apply : (b : Bool) (f g : ℕ → ℕ) (k : ℕ) → (if b then f else g) k ≡ (if b then f k else g k)
if-apply true f g k = refl
if-apply false f g k = refl

put-buf :
    (end c : ℕ) (o : Out) (k : ℕ)
    → (put end c o).buf k ≡ (if leb o.at end && (k == o.at) then c else o.buf k)
unfolding put
put-buf end c o k = if-apply (leb o.at end) (update o.buf o.at c) o.buf k ∙ ground arith

put-at : (end c : ℕ) (o : Out) → o.at + 1 < 2 ^ 32 → (put end c o).at ≡ o.at + 1
unfolding put
put-at end c o small = omega arith

pub put_all-at :
    (end : ℕ) (text : List ℕ) (o : Out)
    → o.at + length text < 2 ^ 32
    → (put_all end text o).at ≡ o.at + length text
unfolding put_all
put_all-at end [] o small = omega arith
put_all-at end (c ∷ text) o small =
    let here = put-at end c o (omega arith) in
    omega (arith, here, put_all-at end text (put end c o) (omega (arith, here)))

-- What is written of a text lies from the place on, and not behind `end`.
unfoldable pub Outside : (end : ℕ) (text : List ℕ) (o : Out) (k : ℕ) → Type 0
Outside end text o k = (k < o.at) ⊎ (o.at + length text ≤ k) ⊎ (end < k)

pub put_all-Outside :
    (end : ℕ) (text : List ℕ) (o : Out) (k : ℕ)
    → o.at + length text < 2 ^ 32
    → Outside end text o k
    → (put_all end text o).buf k ≡ o.buf k
unfolding put_all Outside
put_all-Outside end [] o k small h = refl
put_all-Outside end (c ∷ text) o k small h =
    let here = put-at end c o (omega arith) in
    put_all-Outside end text (put end c o) k (omega (arith, here)) (ground (arith, here))
    ∙ ground (arith, put-buf end c o k)

pub put_all-inside :
    (end : ℕ) (text : List ℕ) (o : Out) (j : ℕ)
    → o.at + length text < 2 ^ 32
    → j < length text
    → o.at + j ≤ end
    → (put_all end text o).buf (o.at + j) ≡ get_or text j 0
unfolding put_all Outside
put_all-inside end [] o j small h room = absurd (omega arith)
put_all-inside end (c ∷ text) o zero small h room =
    let here = put-at end c o (omega arith) in
    put_all-Outside end text (put end c o) (o.at + 0) (omega (arith, here)) (ground (arith, here))
    ∙ ground (arith, put-buf end c o (o.at + 0))
put_all-inside end (c ∷ text) o (suc j) small h room =
    let here = put-at end c o (omega arith) in
    ap (λ k. (put_all end text (put end c o)).buf k) (omega (arith, here))
    ∙ put_all-inside end text (put end c o) j (omega (arith, here)) (omega arith)
        (omega (arith, here))

-- The text that `number` prints: spaces, the sign, the prefix, zeros or spaces, the zeros of the
-- precision, the digits, and spaces.
module _ (sign prefix tmp : List ℕ) (size precision : ℕ) (zero_pad left : Bool) where
  room : ℕ
  room = size - length sign - length prefix - max (length tmp) precision

  before : ℕ
  before = if not zero_pad && not left then room else 0

  middle : ℕ
  middle = if left then 0 else room - before

  pub text : List ℕ
  text =
      replicate before b' '
      ++ sign
      ++ prefix
      ++ replicate middle (if zero_pad then b'0' else b' ')
      ++ replicate (max (length tmp) precision - length tmp) b'0'
      ++ tmp
      ++ replicate (room - before - middle) b' '

  padding : before + middle ≤ room
  unfolding before middle
  padding = ground arith

  length-text : length text ≡ max size (length sign + length prefix + max (length tmp) precision)
  unfolding room text
  length-text = simp (length-append, length-replicate) (omega (arith, padding))

if-same : (b : Bool) → (if b then 0 else 0) ≡ zero
if-same true = refl
if-same false = refl

module _ (sign tmp : List ℕ) (zero_pad left : Bool) where
  -- Without a field width and a precision the text is the sign and the digits.
  text-least : text sign [] tmp 0 0 zero_pad left ≡ sign ++ tmp
  unfolding text room before middle
  text-least =
      let spaces = 0 - length sign - 0 - max (length tmp) 0 in
      let none : spaces ≡ 0 = omega arith in
      let before = if-same (not zero_pad && not left) in
      let zeros : max (length tmp) 0 - length tmp ≡ 0 = omega arith in
      rw (none, before, zeros, if-same left) (simp append-nil refl)

-- The number of characters that `number` prints.
pub width : (num base size precision : ℕ) (f : Flags) → ℕ
width num base size precision f =
    let (sign, n) = sign_of num f in
    max size
      (length sign + length (prefix_of base f) + max (length (digits n base f.large)) precision)

-- The text for a number, which does not depend on the buffer.
unfoldable pub number_text : (num base size precision : ℕ) (f : Flags) → List ℕ
unfolding text room before middle
number_text num base size precision f =
    let (sign, n) = sign_of num f in
    text sign (prefix_of base f) (digits n base f.large) size precision (f.zero_pad && not f.left)
      f.left

pub number_text-least :
    (num base : ℕ) (f : Flags)
    → prefix_of base f ≡ []
    → number_text num base 0 0 f ≡ (sign_of num f).0 ++ digits (sign_of num f).1 base f.large
unfolding number_text
number_text-least num base f none =
    let (sign, n) = sign_of num f in
    rw none (text-least sign (digits n base f.large) (f.zero_pad && not f.left) f.left)

pub number_lem :
    (end num base size precision : ℕ) (f : Flags) (o : Out)
    → 2 ≤ base
    → base ≤ 36
    → (number end num base size precision f o
        ≡ some (put_all end (number_text num base size precision f) o))
      × (length (number_text num base size precision f) ≡ width num base size precision f)
unfolding number width number_text
number_lem end num base size precision f o two small =
    let (sign, n) = sign_of num f in
    let tmp = digits n base f.large in
    let zero_pad = f.zero_pad && not f.left in
    let in_range : (ltb base 2 || ltb 36 base) ≡ false = ground arith in
    (
      rw (in_range) (simp put_all-append refl),
      length-text sign (prefix_of base f) tmp size precision zero_pad f.left,
    )
