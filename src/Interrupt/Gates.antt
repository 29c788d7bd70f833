-- ===== src/Interrupt/Gates.antt =====
-- The interrupt gates after `Interrupt_Init`.
use valeo.Base.{
  ℕ, zero, suc, ◌+◌, ◌-◌, ◌^◌, ◌<◌, ◌≡◌, ap, ◌∙◌, arith, ltb, leb, ◌&&◌, if◌then◌else◌, ℕ_discrete,
}
use valeo.Arch.Descriptor.{Tables, gate, set_interrupt_gate}
use valeo.Arch.Descriptor.Fields.{set_interrupt_gate-idt, handler_of, handler_of-gate}
use valeo.Interrupt.{Entries, set_gates, init_gates}

-- A loop sets the gates of its range, each to its entry, and no other.
set_gates_lem :
    (count first : ℕ) (entry : ℕ → ℕ) (t : Tables) (j : ℕ)
    → (set_gates count first entry t).idt j
      ≡ (if leb first j && ltb j (first + count) then gate 0x8e00 (entry j) else t.idt j)
unfolding set_gates
set_gates_lem zero first entry t j = ground arith
set_gates_lem (suc count) first entry t j =
    set_gates_lem count (first + 1) entry (set_interrupt_gate first (entry first) t) j
    ∙ elim (ℕ_discrete j first) [
      | yes same ↦ ground (arith, set_interrupt_gate-idt first (entry first) j t, ap entry same)
      | no other ↦ ground (arith, set_interrupt_gate-idt first (entry first) j t)
    ]

-- The entry point that gate `j` of the 256 is meant for.
abbrev pub entry_of : Entries → ℕ → ℕ
entry_of e j =
    if ltb j 15
    then e.exception j
    else if leb 32 j && ltb j 48
    then e.irq (j - 32)
    else e.default_handler

-- If the entry points are 32-bit addresses, each of the 256 gates leads to its own after
-- `Interrupt_Init`: the first 15 to the exceptions', gates 32 to 47 to those of the 16 lines, and
-- all others to the default handler.
pub init_gates-entry_of :
    (e : Entries) (t : Tables) (j : ℕ)
    → j < 256
    → ((i : ℕ) → entry_of e i < 2 ^ 32)
    → handler_of ((init_gates e t).idt j) ≡ entry_of e j
unfolding init_gates
init_gates-entry_of e t j h small =
    ap handler_of at ∙ handler_of-gate 0x8e00 (entry_of e j) (small j)
  where
    at : (init_gates e t).idt j ≡ gate 0x8e00 (entry_of e j)
    at = ground (
      arith,
      set_gates_lem 16 0x20 (λ i. e.irq (i - 0x20))
          (set_gates 15 0 e.exception (set_gates 256 0 (λ _. e.default_handler) t)) j,
      set_gates_lem 15 0 e.exception (set_gates 256 0 (λ _. e.default_handler) t) j,
      set_gates_lem 256 0 (λ _. e.default_handler) t j,
    )
