-- ===== src/Interrupt/Dispatch.antt =====
-- Attaching handlers and dispatching interrupts to them.
use valeo.Base.{
  ℕ, suc, ◌≡◌, refl, ap, ap₂, ◌∙◌, Bool, true, false, List, [], ◌∷◌, if◌then◌else◌, Bool-cases, inl,
  inr, ◌⊎◌,
}
use valeo.Base.Run.{ok, looping, update, and_then}
use valeo.Lock
use valeo.Lock.{lock-cases, lock-held}
use valeo.Arch.Pic
use valeo.Arch.Pic.{Pic}
use valeo.Mm.Heap.{Heap, alloc}
use valeo.Interrupt.{
  State, Handlers, Message, no_handler, unhandled, run_chain, dispatch, handle, attach_handler,
  lock, put_word,
}

-- The handlers that ran: `before` passed the interrupt on, in order, and then either one took it, and
-- none of `after` ran, or the chain was at its end.
pub data Ran {W : Type 0} (handlers : Handlers W) : List ℕ → W → Bool → W → Type 0 where
  none_left : {w : W} → Ran handlers [] w false w
  taken :
      {h : ℕ} {after : List ℕ} {w w' : W}
      → handlers h w ≡ (true, w')
      → Ran handlers (h ∷ after) w true w'
  passed :
      {h : ℕ} {chain : List ℕ} {w w1 w' : W} {done : Bool}
      → handlers h w ≡ (false, w1)
      → Ran handlers chain w1 done w'
      → Ran handlers (h ∷ chain) w done w'

module _ {W : Type 0} (handlers : Handlers W) where
  run_chain-Ran :
      (chain : List ℕ) (w : W)
      → Ran handlers chain w (run_chain handlers chain w).0 (run_chain handlers chain w).1
  unfolding run_chain
  run_chain-Ran [] w = none_left
  run_chain-Ran (h ∷ chain) w = elim (Bool-cases (handlers h w).0) [
    | inl yes_ ↦ rw yes_ (taken (λ i. (yes_ i, (handlers h w).1)))
    | inr no_ ↦
        rw no_ (passed (λ i. (no_ i, (handlers h w).1)) (run_chain-Ran chain (handlers h w).1))
  ]

  -- The state that a dispatch leaves: the handlers have run, a message says if none took the
  -- interrupt, and the line is enabled again. With no handlers there is only a message.
  abbrev pub after_dispatch : (irq : ℕ) → List ℕ → State W → State W
  after_dispatch irq [] s = record s { log = no_handler irq ∷ s.log }
  after_dispatch irq (h ∷ chain) s =
      let r = run_chain handlers (h ∷ chain) s.world in
      record s {
        world = r.1;
        log = if r.0 then s.log else unhandled irq ∷ s.log;
        pic = Pic.enable_irq irq (Pic.mask_and_acknowledge irq s.pic);
      }

  dispatch_lem :
      (irq : ℕ) (chain : List ℕ) (s : State W)
      → dispatch handlers irq chain s ≡ ok tt (after_dispatch irq chain s)
  unfolding dispatch
  dispatch_lem irq [] s = refl
  dispatch_lem irq (h ∷ chain) s = elim (Bool-cases (run_chain handlers (h ∷ chain) s.world).0) [
    | inl done ↦ rw done refl
    | inr missed ↦ rw missed refl
  ]

  after_dispatch-lock :
      (irq : ℕ) (chain : List ℕ) (s : State W)
      → ((after_dispatch irq chain s).lock_word ≡ s.lock_word)
        × ((after_dispatch irq chain s).init_done ≡ s.init_done)
  after_dispatch-lock irq [] s = (refl, refl)
  after_dispatch-lock irq (h ∷ chain) s = (refl, refl)

  lock-early : (fuel : ℕ) (s : State W) → s.init_done ≡ false → lock fuel s ≡ ok tt s
  unfolding lock
  lock-early fuel s early = rw (early, Lock.lock-early)

  lock-late :
      (fuel : ℕ) (s : State W)
      → s.init_done ≡ true
      → (lock fuel s ≡ ok tt (record s { lock_word = 1 })) ⊎ (lock fuel s ≡ looping)
  unfolding lock
  lock-late fuel s late = elim (lock-cases fuel s.lock_word) [
    | inl got ↦ inl (ap (λ b. put_word s (Lock.lock b fuel s.lock_word)) late ∙ ap (put_word s) got)
    | inr spins ↦
        inr (ap (λ b. put_word s (Lock.lock b fuel s.lock_word)) late ∙ ap (put_word s) spins)
  ]

  lock-again :
      (fuel : ℕ) (s : State W) → s.init_done ≡ true → s.lock_word ≡ 1 → lock fuel s ≡ looping
  unfolding lock
  lock-again fuel s late held =
      ap₂ (λ b w. put_word s (Lock.lock b fuel w)) late held ∙ ap (put_word s) (lock-held fuel)

  -- Before `g_bKernelInitDone` is set, `Interrupt_Handle` returns, and its effect is the dispatch.
  pub handle-after_dispatch :
      (fuel irq : ℕ) (s : State W)
      → s.init_done ≡ false
      → handle handlers fuel irq s ≡ ok tt (after_dispatch irq (s.chains irq) s)
  unfolding handle
  handle-after_dispatch fuel irq s early =
      let t = after_dispatch irq (s.chains irq) s in
      let same = after_dispatch-lock irq (s.chains irq) s in
      ap
        (λ r.
          and_then r (λ _ s'. and_then (dispatch handlers irq (s'.chains irq) s') (λ _. lock fuel)))
        (lock-early fuel s early)
      ∙ ap (λ r. and_then r (λ _. lock fuel)) (dispatch_lem irq (s.chains irq) s)
      ∙ lock-early fuel t (same.1 ∙ early)

  -- Once `g_bKernelInitDone` is set, `Interrupt_Handle` never returns, whatever the state and however
  -- long it spins: its last call waits for the lock that its first call has taken.
  pub handle-looping :
      (fuel irq : ℕ) (s : State W) → s.init_done ≡ true → handle handlers fuel irq s ≡ looping
  unfolding handle
  handle-looping fuel irq s late = elim (lock-late fuel s late) [
    | inl got ↦
        let s' = record s { lock_word = 1 } in
        let t = after_dispatch irq (s'.chains irq) s' in
        let same = after_dispatch-lock irq (s'.chains irq) s' in
        ap
          (λ r.
            and_then r
              (λ _ s'. and_then (dispatch handlers irq (s'.chains irq) s') (λ _. lock fuel)))
          got
        ∙ ap (λ r. and_then r (λ _. lock fuel)) (dispatch_lem irq (s'.chains irq) s')
        ∙ lock-again fuel t (same.1 ∙ late) same.0
    | inr spins ↦
        ap
          (λ r.
            and_then r
              (λ _ s'. and_then (dispatch handlers irq (s'.chains irq) s') (λ _. lock fuel)))
          spins
  ]

-- The message of a dispatch that no handler has taken.
abbrev pub missed : ℕ → List ℕ → Message
missed irq [] = no_handler irq
missed irq (h ∷ chain) = unhandled irq

-- What `Interrupt_Handle` does before `g_bKernelInitDone` is set.
pub record Dispatched {W : Type 0} (handlers : Handlers W) (irq : ℕ) (s t : State W) : Type 0 where
  pub done : Bool
  pub ran : Ran handlers (s.chains irq) s.world done t.world
  pub log : t.log ≡ (if done then s.log else missed irq (s.chains irq) ∷ s.log)
  pub chains : t.chains ≡ s.chains

module _ {W : Type 0} (handlers : Handlers W) where
  after_dispatch-Dispatched :
      (irq : ℕ) (chain : List ℕ) (s : State W)
      → s.chains irq ≡ chain
      → Dispatched handlers irq s (after_dispatch handlers irq chain s)
  unfolding run_chain
  after_dispatch-Dispatched irq [] s e = record {
    done = false;
    ran = rw e none_left;
    log = rw e refl;
    chains = refl;
  }
  after_dispatch-Dispatched irq (h ∷ chain) s e = record {
    done = (run_chain handlers (h ∷ chain) s.world).0;
    ran = rw e (run_chain-Ran handlers (h ∷ chain) s.world);
    log = rw e refl;
    chains = refl;
  }

  -- Before `g_bKernelInitDone` is set, `Interrupt_Handle` returns: it has run the handlers of the
  -- line, the one attached last first, up to the first that took the interrupt, and has written a
  -- message exactly if none did. No chain changes.
  pub handle-Dispatched :
      (fuel irq : ℕ) (s : State W)
      → s.init_done ≡ false
      → (t : State W) × (handle handlers fuel irq s ≡ ok tt t) × Dispatched handlers irq s t
  handle-Dispatched fuel irq s early = (
    after_dispatch handlers irq (s.chains irq) s,
    handle-after_dispatch handlers fuel irq s early,
    after_dispatch-Dispatched irq (s.chains irq) s refl,
  )

module _ {W : Type 0} (irq handler : ℕ) (s : State W) (fuel node : ℕ) (h : Heap)
    (run : alloc (suc fuel) 8 s.heap ≡ ok node h) where
  -- A state like `s` with both locks free.
  abbrev pub free_locks : State W
  free_locks = record s { lock_word = 0; mm_lock_word = 0 }

  attach_handler-at :
      (d : Bool)
      → attach_handler (suc fuel) irq handler (record free_locks { init_done = d })
        ≡ ok true (record free_locks {
          init_done = d;
          heap = h;
          chains = update s.chains irq (handler ∷ s.chains irq);
          interrupts_on = if d then true else s.interrupts_on;
        })
  unfolding attach_handler Lock.lock Lock.unlock
  attach_handler-at true = rw run refl
  attach_handler-at false = rw run refl

  -- With both locks free and a block for the node from `MM_KAlloc`, `Interrupt_AttachHandler` puts the
  -- handler in front of the chain of its line and changes no other chain. The heap is as `MM_KAlloc`
  -- leaves it. It returns true with both locks free again,
  -- and with interrupts on if `g_bKernelInitDone` is set.
  pub attach_handler_lem :
      attach_handler (suc fuel) irq handler free_locks
      ≡ ok true (record free_locks {
        heap = h;
        chains = update s.chains irq (handler ∷ s.chains irq);
        interrupts_on = if s.init_done then true else s.interrupts_on;
      })
  attach_handler_lem = attach_handler-at s.init_done
