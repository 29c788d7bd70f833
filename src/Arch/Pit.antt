-- ===== src/Arch/Pit.antt =====
-- src/arch/x86/8254.c: the bytes that set the interval timer. An access list has the first in front.
use valeo.Base.{ℕ, ◌/◌, ◌%◌, ◌^◌, List, [], ◌∷◌, bit_and, bit_or}
use valeo.Arch.Pic.{PortIo, outb, inb}

-- `PIT_SPEED` of include/arch/x86/8254.h
abbrev pub speed : ℕ
speed = 0x1234dd / 1000

-- `PIT_Init`; `gate` is what the read of port 0x61 returns.
unfoldable pub init : (gate : ℕ) → List PortIo
init gate =
    inb 0x61
    ∷ outb 0x61 (bit_or gate 1)
    ∷ outb 0x43 0x34
    ∷ outb 0x40 (bit_and speed 0xff)
    ∷ outb 0x40 (speed / 2 ^ 8 % 2 ^ 8)
    ∷ outb 0x43 0x74
    ∷ outb 0x42 0
    ∷ outb 0x42 0
    ∷ outb 0x43 0xb4
    ∷ outb 0x42 0
    ∷ outb 0x42 0
    ∷ []

-- `PIT_StopTimer`
unfoldable pub stop_timer : List PortIo
stop_timer = outb 0x43 0x34 ∷ outb 0x40 0 ∷ outb 0x40 0 ∷ []
