-- ===== src/Interrupt.antt =====
-- src/interrupt.c: the chains of interrupt handlers, their dispatch, and the interrupt gates. The
-- nodes of a chain are allocated once and never changed, so a chain is the list of its handlers, the
-- one attached last in front.
pub mod Dispatch
pub mod Gates
use valeo.Base.{ℕ, zero, suc, ◌+◌, ◌-◌, ◌^◌, Bool, true, false, List, [], ◌∷◌, ltb, if◌then◌else◌}
use valeo.Base.Run.{
  Run, Cmd, ok, halted, looping, pure, halt, get, zoom, modify, ◌>>=◌, ◌>>◌, update,
}
use valeo.Lock
use valeo.Mm.Heap.{Heap, alloc}
use valeo.Arch.Pic
use valeo.Arch.Pic.{Pic}
use valeo.Arch.Descriptor.{Tables, set_interrupt_gate}

abbrev pub num_irqs : ℕ
num_irqs = 16

-- The two messages of `Interrupt_Handle`.
pub data Message : Type 0 where
  no_handler unhandled : (irq : ℕ) → Message

-- The handlers are known by numbers; what one does to the rest of the system, `W`, and whether it has
-- handled the interrupt, is given by a function.
abbrev pub Handlers : Type 0 → Type 0
Handlers W = ℕ → W → Bool × W

pub record State (W : Type 0) : Type 0 where
  pub lock_word : ℕ
  pub mm_lock_word : ℕ
  pub init_done : Bool
  pub chains : ℕ → List ℕ
  pub heap : Heap
  pub pic : Pic
  pub log : List Message
  pub interrupts_on : Bool
  pub world : W

module _ {W : Type 0} where
  abbrev pub put_word : State W → Run ℕ (Unit {0}) → Run (State W) (Unit {0})
  put_word s (ok u word) = ok u (record s { lock_word = word })
  put_word s (halted word) = halted (record s { lock_word = word })
  put_word s looping = looping

  -- `Interrupt_Lock` and `Interrupt_Unlock`
  unfoldable pub lock : (fuel : ℕ) → Cmd (State W) (Unit {0})
  lock fuel s = put_word s (Lock.lock s.init_done fuel s.lock_word)

  unfoldable pub unlock : Cmd (State W) (Unit {0})
  unlock s = ok tt (record s { lock_word = Lock.unlock s.init_done s.lock_word })

  -- `MM_Lock` and `MM_Unlock` of src/mm.c
  unfoldable pub mm_lock : (fuel : ℕ) → Cmd (State W) (Unit {0})
  mm_lock fuel s = elim (Lock.lock s.init_done fuel s.mm_lock_word) [
    | ok u word ↦ ok u (record s { mm_lock_word = word })
    | halted word ↦ halted (record s { mm_lock_word = word })
    | looping ↦ looping
  ]

  unfoldable pub mm_unlock : Cmd (State W) (Unit {0})
  mm_unlock s = ok tt (record s { mm_lock_word = Lock.unlock s.init_done s.mm_lock_word })

  abbrev pub say : Message → Cmd (State W) (Unit {0})
  say m = modify (λ s. record s { log = m ∷ s.log })

  -- The loop of `Interrupt_Handle`: it ends with the first handler that returns true.
  pub run_chain : Handlers W → List ℕ → W → Bool × W
  run_chain handlers [] w = (false, w)
  run_chain handlers (h ∷ chain) w =
      let (done, w') = handlers h w in
      let rest = run_chain handlers chain w' in if done then (true, w') else rest

  -- What `Interrupt_Handle` does between its two calls of `Interrupt_Lock`.
  pub dispatch : Handlers W → (irq : ℕ) → List ℕ → Cmd (State W) (Unit {0})
  unfolding run_chain
  dispatch handlers irq [] = say (no_handler irq)
  dispatch handlers irq (h ∷ chain) = do
    modify (λ s. record s { pic = Pic.mask_and_acknowledge irq s.pic })
    s ← get
    let (done, w) = run_chain handlers (h ∷ chain) s.world
    modify (λ s. record s { world = w })
    if done then pure tt else say (unhandled irq)
    modify (λ s. record s { pic = Pic.enable_irq irq s.pic })

  -- `Interrupt_Handle`. Its last line calls `Interrupt_Lock`, as the source has it.
  pub handle : Handlers W → (fuel irq : ℕ) → Cmd (State W) (Unit {0})
  unfolding lock dispatch
  handle handlers fuel irq = do lock fuel; s ← get; dispatch handlers irq (s.chains irq); lock fuel

  -- `MM_KAlloc` of src/mm_allocator.c
  abbrev pub kalloc : (fuel size : ℕ) → Cmd (State W) ℕ
  kalloc fuel size = zoom State.heap (λ h s. record s { heap = h }) (alloc fuel size)

  -- `Interrupt_AttachHandler`. The two words of the node hold the handler and the rest of the chain.
  unfoldable pub attach_handler : (fuel : ℕ) (irq handler : ℕ) → Cmd (State W) Bool
  unfolding lock unlock mm_lock mm_unlock
  attach_handler fuel irq handler = do
    lock fuel
    modify (λ s. record s { interrupts_on = if s.init_done then false else s.interrupts_on })
    mm_lock fuel
    node ← kalloc fuel 8
    mm_unlock
    modify (λ s. record s { chains = update s.chains irq (handler ∷ s.chains irq) })
    modify (λ s. record s { interrupts_on = if s.init_done then true else s.interrupts_on })
    unlock
    pure true

  -- `Interrupt_EnableIRQ`
  unfoldable pub enable_irq : ℕ → Cmd (State W) Bool
  enable_irq irq = do modify (λ s. record s { pic = Pic.enable_irq irq s.pic }); pure true

-- The loop of `Interrupt_Init` that empties the chains.
unfoldable pub clear_chains : ℕ → (ℕ → List ℕ) → ℕ → List ℕ
clear_chains zero chains = chains
clear_chains (suc n) chains = update (clear_chains n chains) n []

-- The addresses of the entry points in src/boot.S.
pub record Entries : Type 0 where
  pub default_handler : ℕ
  pub exception : ℕ → ℕ
  pub irq : ℕ → ℕ

-- A loop that sets the gates `[first, first + count)`.
unfoldable pub set_gates : (count first : ℕ) → (ℕ → ℕ) → Tables → Tables
set_gates zero first entry t = t
set_gates (suc count) first entry t =
    set_gates count (first + 1) entry (set_interrupt_gate first (entry first) t)

-- The gates that `Interrupt_Init` sets: all 256 to the default, 15 exceptions and 16 lines.
unfoldable pub init_gates : Entries → Tables → Tables
unfolding set_gates
init_gates e t =
    set_gates 16 0x20 (λ i. e.irq (i - 0x20))
      (set_gates 15 0 e.exception (set_gates 256 0 (λ _. e.default_handler) t))

-- `Interrupt_Init`, less the load of the table's address into the processor.
unfoldable pub init : {W : Type 0} → Entries → Tables → Cmd (State W) Tables
unfolding init_gates clear_chains
init e t = do
  modify (λ s. record s { lock_word = Lock.init s.lock_word })
  modify (λ s. record s { chains = clear_chains num_irqs s.chains })
  pure (init_gates e t)
