-- ===== src/Arch/Descriptor/Fields.antt =====
-- What the processor reads back from the descriptors that src/arch/x86/descriptor.c writes.
use valeo.Base.{
  ℕ, ◌+◌, ◌*◌, ◌/◌, ◌%◌, ◌^◌, ◌<◌, ◌≡◌, refl, arith, ltb, bit_and, if◌then◌else◌, ◌==◌, Bool-cases,
  inl, inr,
}
use valeo.Base.Bits.{and-mask, or-fields}
use valeo.Arch.Descriptor.{
  Gate, Segment, Tables, gate, set_interrupt_gate, set_base, set_limit, granularity, entry,
  kernel_cs,
}

-- The handler's address in a gate, the base of a segment, and its last byte: the limit, or with the
-- granularity flag the end of that many pages.
abbrev pub handler_of : Gate → ℕ
handler_of g = g.base_high * 2 ^ 16 + g.base_low

abbrev pub base_of : Segment → ℕ
base_of d = d.base_high * 2 ^ 24 + d.base_middle * 2 ^ 16 + d.base_low

abbrev pub raw_limit : Segment → ℕ
raw_limit d = d.limit_high % 16 * 2 ^ 16 + d.limit_low

abbrev pub limit_of : Segment → ℕ
limit_of d = if d.limit_high / 128 == 1 then raw_limit d * 4096 + 4095 else raw_limit d

-- After `Descriptor_SetInterruptGate` with a 32-bit address the gate leads to the address, in the
-- kernel's code segment, and no other gate changes.
pub set_interrupt_gate_lem :
    (i h j : ℕ) (s : Tables)
    → h < 2 ^ 32
    → let t = set_interrupt_gate i h s in
      (handler_of (t.idt i) ≡ h)
      × ((t.idt i).selector ≡ kernel_cs)
      × (t.idt j ≡ (if j == i then t.idt i else s.idt j))
unfolding set_interrupt_gate gate
set_interrupt_gate_lem i h j s hb = (ground (arith, and-mask 16 h), ground arith, ground arith)

-- After `Descriptor_SetBase` with a 32-bit base the entry has that base, and its limit is as
-- before.
pub set_base-base_of :
    (sel b : ℕ) (s : Tables)
    → b < 2 ^ 32
    → (base_of ((set_base sel b s).gdt (entry sel)) ≡ b)
      × (limit_of ((set_base sel b s).gdt (entry sel)) ≡ limit_of (s.gdt (entry sel)))
unfolding set_base
set_base-base_of sel b s hb =
    (ground (arith, and-mask 16 b, and-mask 8 (b / 2 ^ 16), and-mask 8 (b / 2 ^ 24)), ground arith)

-- After `Descriptor_SetLimit` with a 32-bit limit the entry has that limit where it fits 20 bits,
-- and otherwise the last byte of its page. The base and the access stay.
pub set_limit-limit_of :
    (sel l : ℕ) (s : Tables)
    → l < 2 ^ 32
    → let d = (set_limit sel l s).gdt (entry sel) in
      (limit_of d ≡ (if ltb 0xfffff l then l / 4096 * 4096 + 4095 else l))
      × (base_of d ≡ base_of (s.gdt (entry sel)))
      × (d.attributes ≡ (s.gdt (entry sel)).attributes)
unfolding set_limit granularity
set_limit-limit_of sel l s hb = elim (Bool-cases (ltb 0xfffff l)) [
  | inl large ↦
      let m = and-mask 4 (l / 2 ^ 12 / 2 ^ 16) in
      rw large (
        ground (
          arith,
          and-mask 16 (l / 2 ^ 12),
          m,
          or-fields 4 12 (bit_and (l / 2 ^ 12 / 2 ^ 16) 0xf),
        ),
        ground arith,
        ground arith,
      )
  | inr small ↦
      let m = and-mask 4 (l / 2 ^ 16) in
      rw small (
        ground (arith, and-mask 16 l, m, or-fields 4 4 (bit_and (l / 2 ^ 16) 0xf)),
        ground arith,
        ground arith,
      )
]

pub set_interrupt_gate-idt :
    (i h j : ℕ) (s : Tables)
    → (set_interrupt_gate i h s).idt j ≡ (if j == i then gate 0x8e00 h else s.idt j)
unfolding set_interrupt_gate
set_interrupt_gate-idt i h j s = refl

pub handler_of-gate : (f h : ℕ) → h < 2 ^ 32 → handler_of (gate f h) ≡ h
unfolding gate
handler_of-gate f h hb = ground (arith, and-mask 16 h)
