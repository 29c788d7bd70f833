-- ===== src/Arch/Descriptor.antt =====
-- src/arch/x86/descriptor.c: the entries of the interrupt and the global descriptor table. The
-- structures are those of include/arch/x86/descriptor.h, with fields of 8 and 16 bits.
pub mod Fields
use valeo.Base.{ℕ, ◌+◌, ◌*◌, ◌/◌, ◌%◌, ◌^◌, Bool, ltb, bit_and, bit_or, if◌then◌else◌}
use valeo.Base.Run.{update}

-- `sIDT_t`
pub record Gate : Type 0 where
  pub base_low : ℕ
  pub selector : ℕ
  pub flags : ℕ
  pub base_high : ℕ

-- `sGDT_t`
pub record Segment : Type 0 where
  pub limit_low : ℕ
  pub base_low : ℕ
  pub base_middle : ℕ
  pub attributes : ℕ
  pub limit_high : ℕ
  pub base_high : ℕ

-- `l_sIDT` and `l_sGDT`
pub record Tables : Type 0 where
  pub idt : ℕ → Gate
  pub gdt : ℕ → Segment

abbrev pub kernel_cs : ℕ
kernel_cs = 0x08

abbrev pub u8 : ℕ → ℕ
u8 n = n % 2 ^ 8

abbrev pub u16 : ℕ → ℕ
u16 n = n % 2 ^ 16

-- `Descriptor_Init`
unfoldable pub init : (ℕ → Gate) → (ℕ → Segment) → Tables
init idt gdt = record { idt = idt; gdt = gdt }

-- What the three functions for gates store, with the flags of each.
unfoldable pub gate : (flags handler : ℕ) → Gate
gate flags handler = record {
  selector = kernel_cs;
  base_low = u16 (bit_and handler 0xffff);
  base_high = u16 (handler / 2 ^ 16);
  flags = flags;
}

pub set_interrupt_gate : (interrupt handler : ℕ) → Tables → Tables
unfolding gate
set_interrupt_gate interrupt handler s = record s {
  idt = update s.idt interrupt (gate 0x8e00 handler);
}

unfoldable pub set_task_gate : (interrupt handler : ℕ) → Tables → Tables
unfolding gate
set_task_gate interrupt handler s = record s { idt = update s.idt interrupt (gate 0x8500 handler) }

unfoldable pub set_call_gate : (interrupt handler : ℕ) → Tables → Tables
unfolding gate
set_call_gate interrupt handler s = record s { idt = update s.idt interrupt (gate 0x8c00 handler) }

-- A selector names entry `selector >> 3`.
abbrev pub entry : ℕ → ℕ
entry selector = selector / 2 ^ 3

-- `Descriptor_SetBase`
pub set_base : (selector base : ℕ) → Tables → Tables
set_base selector base s =
    let d = s.gdt (entry selector) in
    record s {
      gdt = update s.gdt (entry selector) (record d {
        base_low = u16 (bit_and base 0xffff);
        base_middle = u8 (bit_and (base / 2 ^ 16) 0xff);
        base_high = u8 (bit_and (base / 2 ^ 24) 0xff);
      });
    }

-- `Descriptor_SetLimit`: the flag for 4K granularity, and the limit in the unit that it says.
pub granularity : ℕ → record { flags : ℕ; limit : ℕ }
granularity limit =
    if ltb 0x000fffff limit
    then record { flags = u8 (bit_or 0x40 0x80); limit = limit / 2 ^ 12 }
    else record { flags = 0x40; limit = limit }

pub set_limit : (selector limit : ℕ) → Tables → Tables
unfolding granularity
set_limit selector limit s =
    let d = s.gdt (entry selector) in
    let g = granularity limit in
    record s {
      gdt = update s.gdt (entry selector) (record d {
        limit_low = u16 (bit_and g.limit 0xffff);
        limit_high = u8 (bit_or g.flags (bit_and (g.limit / 2 ^ 16) 0x0f));
      });
    }

-- `Descriptor_SetAccess`
unfoldable pub set_access : (selector access : ℕ) → Tables → Tables
set_access selector access s =
    let d = s.gdt (entry selector) in
    record s { gdt = update s.gdt (entry selector) (record d { attributes = access }) }
