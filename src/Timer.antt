-- ===== src/Timer.antt =====
-- src/timer.c: the list of timers, and its walk at every tick of the interrupt timer. The nodes are
-- allocated once and stay linked, so the list is that of their values, the one attached last in front.
pub mod Period
use valeo.Base.{
  ℕ, zero, suc, ◌+◌, ◌-◌, ◌%◌, ◌^◌, Bool, true, false, List, [], ◌∷◌, ◌==◌, if◌then◌else◌,
}
use valeo.Base.Run.{Run, Cmd, ok, halted, looping, pure, halt, get, zoom, modify, ◌>>=◌, ◌>>◌}
use valeo.Lock
use valeo.Mm.Heap.{Heap, alloc}
use valeo.Interrupt
use valeo.Interrupt.{State}

abbrev pub u32 : ℕ → ℕ
u32 n = n % 2 ^ 32

-- `sTimer_t`; a handler is known by its number.
pub record Timer : Type 0 where
  pub time_out : ℕ
  pub time_out_left : ℕ
  pub handler : ℕ

-- `m_psLastTimer`, `m_nTimer` and the lock of the file, with the rest of the system, `W`, that the
-- handlers work on.
pub record Timers (W : Type 0) : Type 0 where
  pub lock_word : ℕ
  pub init_done : Bool
  pub timers : List Timer
  pub ticks : ℕ
  pub world : W

-- One timer at one tick: its new state, and whether its handler is called.
pub tick : Timer → Timer × Bool
tick t =
    if t.time_out == 0
    then (t, true)
    else (let left = u32 (t.time_out_left + 2 ^ 32 - 1) in
        if left == 0
        then (record t { time_out_left = t.time_out }, true)
        else (record t { time_out_left = left }, false))

module _ {W : Type 0} where
  -- The loop of `Timer_Handler`.
  pub run_timers : (ℕ → W → W) → List Timer → W → List Timer × W
  unfolding tick
  run_timers call [] w = ([], w)
  run_timers call (t ∷ rest) w =
      let (t', fires) = tick t in
      let (rest', w') = run_timers call rest (if fires then call t.handler w else w) in
      (t' ∷ rest', w')

  abbrev pub put_word : Timers W → Run ℕ (Unit {0}) → Run (Timers W) (Unit {0})
  put_word s (ok u word) = ok u (record s { lock_word = word })
  put_word s (halted word) = halted (record s { lock_word = word })
  put_word s looping = looping

  -- `Timer_Lock` and `Timer_Unlock`
  unfoldable pub lock : (fuel : ℕ) → Cmd (Timers W) (Unit {0})
  lock fuel s = put_word s (Lock.lock s.init_done fuel s.lock_word)

  unfoldable pub unlock : Cmd (Timers W) (Unit {0})
  unlock s = ok tt (record s { lock_word = Lock.unlock s.init_done s.lock_word })

  -- `Timer_Handler`
  pub timer_handler : (ℕ → W → W) → (fuel : ℕ) → Cmd (Timers W) Bool
  unfolding lock unlock run_timers
  timer_handler call fuel = do
    lock fuel
    s ← get
    let (timers, w) = run_timers call s.timers s.world
    modify (λ s. record s { timers = timers; world = w })
    unlock
    pure true

  abbrev pub on_timers : {A : Type 0} → Cmd (Timers W) A → Cmd (Timers W × Heap) A
  on_timers c = zoom (λ p. p.0) (λ t p. (t, p.1)) c

  -- `Timer_AttachTimerHandler`, with the heap that `MM_KAlloc` takes the 16 bytes of the node from.
  unfoldable pub attach_timer_handler :
      (fuel : ℕ) (time_out handler : ℕ) → Cmd (Timers W × Heap) (Unit {0})
  unfolding lock unlock
  attach_timer_handler fuel time_out handler = do
    on_timers (lock fuel)
    node ← zoom (λ (p : Timers W × Heap). p.1) (λ h p. (p.0, h)) (alloc fuel 16)
    on_timers (
        modify (λ s. record s {
          timers =
              record { time_out = time_out; time_out_left = time_out; handler = handler }
              ∷ s.timers;
        }))
    on_timers unlock

  -- `Timer_Init`: no timers, and the handler at line 0 of the interrupts, which it enables.
  unfoldable pub init :
      (fuel : ℕ) (timer_handler : ℕ) {V : Type 0} → Timers W → Cmd (State V) (Timers W)
  init fuel timer_handler s = do
    attached ← Interrupt.attach_handler fuel 0 timer_handler
    enabled ← Interrupt.enable_irq 0
    pure (record s { lock_word = Lock.init s.lock_word; timers = []; ticks = 0 })
