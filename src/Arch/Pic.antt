-- ===== src/Arch/Pic.antt =====
-- src/arch/x86/8259a.c: the interrupt mask that the kernel keeps, and the bytes that it sends to the
-- two interrupt controllers.
pub mod Mask
use valeo.Base.{
  ℕ, ◌+◌, ◌-◌, ◌*◌, ◌/◌, ◌%◌, ◌^◌, List, [], ◌∷◌, ◌++◌, ◌==◌, bit_and, bit_or, bit_xor,
  if◌then◌else◌,
}

-- An access to an I/O port: `outb` with its port and value, or `inb`, whose value is dropped.
pub data PortIo : Type 0 where
  outb : (port value : ℕ) → PortIo
  inb : (port : ℕ) → PortIo

-- `l_nPICMask`, 16 bits, and the accesses so far, in order.
pub record Pic : Type 0 where
  pub mask : ℕ
  pub io : List PortIo

-- `PICLower` and `PICUpper`
abbrev pub lower : ℕ → ℕ
lower mask = mask % 2 ^ 8

abbrev pub upper : ℕ → ℕ
upper mask = mask / 2 ^ 8 % 2 ^ 8

abbrev pub u16 : ℕ → ℕ
u16 n = n % 2 ^ 16

-- `~x` in 32 bits
abbrev pub complement : ℕ → ℕ
complement x = bit_xor x (2 ^ 32 - 1)

-- `PIC_Init`. The arguments of its last two calls stand as in the source, port first.
pub init : Pic → Pic
init s = record s {
  io =
      s.io
      ++ outb 0x21 (lower s.mask)
        ∷ outb 0xa1 (upper s.mask)
        ∷ outb 0x20 0x11
        ∷ outb 0x21 0x20
        ∷ outb 0x21 0x04
        ∷ outb 0x21 0x01
        ∷ outb 0xa0 0x11
        ∷ outb 0xa1 0x28
        ∷ outb 0xa1 0x02
        ∷ outb 0xa1 0x01
        ∷ outb (lower s.mask) 0x21
        ∷ outb (upper s.mask) 0xa1
        ∷ [];
}

-- The write of the half of the mask that holds the line of `irq`.
pub write_mask : (irq mask : ℕ) → PortIo
write_mask irq mask = if bit_and irq 8 == 0 then outb 0x21 (lower mask) else outb 0xa1 (upper mask)

-- `PIC_EnableIRQ`
pub enable_irq : ℕ → Pic → Pic
unfolding write_mask
enable_irq irq s =
    let mask = u16 (bit_and s.mask (complement (2 ^ irq))) in
    record { mask = mask; io = s.io ++ write_mask irq mask ∷ [] }

-- `PIC_DisableIRQ`
pub disable_irq : ℕ → Pic → Pic
unfolding write_mask
disable_irq irq s =
    let mask = u16 (bit_or s.mask (2 ^ irq)) in
    record { mask = mask; io = s.io ++ write_mask irq mask ∷ [] }

-- `PIC_MaskAndAcknowledge`
pub mask_and_acknowledge : ℕ → Pic → Pic
mask_and_acknowledge irq s =
    let mask = u16 (bit_or s.mask (2 ^ irq)) in
    record {
      mask = mask;
      io =
          s.io
          ++ (if bit_and irq 8 == 0
              then inb 0x21 ∷ outb 0x21 (lower mask) ∷ outb 0x20 (0x60 + irq) ∷ []
              else inb 0xa1
                ∷ outb 0xa1 (upper mask)
                ∷ outb 0xa0 (0x60 + bit_and irq 7)
                ∷ outb 0x20 0x62
                ∷ []);
    }
