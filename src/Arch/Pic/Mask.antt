-- ===== src/Arch/Pic/Mask.antt =====
-- The kernel's mask against the lines that it stands for, and against the controllers' own masks.
use valeo.Base.{
  ℕ, ◌+◌, ◌-◌, ◌%◌, ◌^◌, ◌<◌, ◌≡◌, refl, ap, ap₂, ◌∙◌, arith, List, [], ◌∷◌, ◌++◌, ◌==◌, bit_and,
  bit_or, if◌then◌else◌, max, min, true, Option, none, some, ltb, Bool-cases, inl, inr, holds_below,
  holds_below_sound, iff, iff-eq,
}
use valeo.Base.Bits.{digit, digit-and, digit-or, digit-xor}
use valeo.Base.Digits.{digit-pow, digit-ones, digit-mod}
use valeo.Arch.Pic.{
  Pic, PortIo, outb, inb, u16, complement, enable_irq, disable_irq, mask_and_acknowledge, init,
  lower, upper,
}

-- Line `j` is off.
abbrev pub masked : ℕ → ℕ → ℕ
masked mask j = digit mask j

-- For a line below 16, `PIC_EnableIRQ` clears the bit of the line in the kernel's mask and no
-- other.
pub enable_irq-masked :
    (irq j : ℕ) (s : Pic)
    → irq < 16
    → j < 16
    → masked (enable_irq irq s).mask j ≡ (if j == irq then 0 else masked s.mask j)
unfolding enable_irq
enable_irq-masked irq j s hi hj =
    digit-mod 16 (bit_and s.mask (complement (2 ^ irq))) j hj
    ∙ digit-and s.mask (complement (2 ^ irq)) j
    ∙ ap (min (digit s.mask j)) (
        digit-xor (2 ^ irq) (2 ^ 32 - 1) j
        ∙ ap₂ (λ x y. (x + y) % 2) (digit-pow irq j) (digit-ones 32 j (omega arith)))
    ∙ ground arith

set_bit-masked :
    (irq j m : ℕ)
    → j < 16
    → digit (u16 (bit_or m (2 ^ irq))) j ≡ (if j == irq then 1 else digit m j)
set_bit-masked irq j m hj =
    digit-mod 16 (bit_or m (2 ^ irq)) j hj
    ∙ digit-or m (2 ^ irq) j
    ∙ ap (max (digit m j)) (digit-pow irq j)
    ∙ ground arith

-- `PIC_DisableIRQ` and `PIC_MaskAndAcknowledge` set the bit of their line in the kernel's mask and
-- no other of its 16.
pub disable_irq-masked :
    (irq j : ℕ) (s : Pic)
    → j < 16
    → (masked (disable_irq irq s).mask j ≡ (if j == irq then 1 else masked s.mask j))
      × (masked (mask_and_acknowledge irq s).mask j ≡ (if j == irq then 1 else masked s.mask j))
unfolding disable_irq mask_and_acknowledge
disable_irq-masked irq j s hj = (set_bit-masked irq j s.mask hj, set_bit-masked irq j s.mask hj)

-- The byte that a port was written last.
abbrev pub last_write : ℕ → Option ℕ → List PortIo → Option ℕ
last_write p acc [] = acc
last_write p acc (outb q v ∷ r) = last_write p (if q == p then some v else acc) r
last_write p acc (inb q ∷ r) = last_write p acc r

last_write-append :
    (p : ℕ) (acc : Option ℕ) (xs ys : List PortIo)
    → last_write p acc (xs ++ ys) ≡ last_write p (last_write p acc xs) ys
last_write-append p acc [] ys = refl
last_write-append p acc (outb q v ∷ r) ys =
    last_write-append p (if q == p then some v else acc) r ys
last_write-append p acc (inb q ∷ r) ys = last_write-append p acc r ys

-- The data port of the controller of a line, and its half of the mask.
abbrev pub port_of : ℕ → ℕ
port_of irq = if ltb irq 8 then 0x21 else 0xa1

abbrev pub half_of : ℕ → ℕ → ℕ
half_of irq mask = if ltb irq 8 then lower mask else upper mask

abbrev pub Mirrors : ℕ → Pic → Type 0
Mirrors irq s = last_write (port_of irq) none s.io ≡ some (half_of irq s.mask)

-- `irq & 8` tells the two controllers apart.
bit_eight : holds_below 16 (λ irq. iff (bit_and irq 8 == 0) (ltb irq 8)) ≡ true
unfolding holds_below
bit_eight = refl

and-eight : (irq : ℕ) → irq < 16 → (bit_and irq 8 == 0) ≡ ltb irq 8
and-eight irq h = iff-eq _ _ (holds_below_sound 16 _ irq h bit_eight)

-- For a line below 16, each of the three operations leaves the controller of the line with its half
-- of the kernel's mask as the last byte at its data port.
pub enable_irq-Mirrors :
    (irq : ℕ) (s : Pic)
    → irq < 16
    → Mirrors irq (enable_irq irq s)
      × Mirrors irq (disable_irq irq s)
      × Mirrors irq (mask_and_acknowledge irq s)
unfolding enable_irq disable_irq mask_and_acknowledge
enable_irq-Mirrors irq s h = elim (Bool-cases (ltb irq 8)) [
  | inl low ↦
      rw (and-eight irq h, low)
        (
          last_write-append 0x21 none s.io _,
          last_write-append 0x21 none s.io _,
          last_write-append 0x21 none s.io _,
        )
  | inr high ↦
      rw (and-eight irq h, high)
        (
          last_write-append 0xa1 none s.io _,
          last_write-append 0xa1 none s.io _,
          last_write-append 0xa1 none s.io _,
        )
]

-- When both halves of the mask are above 0xa1, the last byte that `PIC_Init` writes to the data
-- port of each controller is 1, the choice of manual end of interrupt, and not the mask.
pub init-last_write :
    (s : Pic)
    → 0xa1 < lower s.mask
    → 0xa1 < upper s.mask
    → (last_write 0x21 none (init s).io ≡ some 0x01)
      × (last_write 0xa1 none (init s).io ≡ some 0x01)
unfolding init
init-last_write s hl hu = (
  last_write-append 0x21 none s.io _ ∙ ground arith,
  last_write-append 0xa1 none s.io _ ∙ ground arith,
)
