-- ===== src/Timer/Period.antt =====
-- How often a timer fires.
use valeo.Base.{
  ℕ, zero, suc, ◌+◌, ◌-◌, ◌*◌, ◌/◌, ◌%◌, ◌^◌, ◌≤◌, ◌<◌, ◌≡◌, refl, ap, ap₂, sym, ◌∙◌, arith, Bool,
  true, false, List, [], ◌∷◌, ◌==◌, if◌then◌else◌, Bool-cases, inl, inr, map,
}
use native.Mathlib.Nat.{
  mul-add-mod_self_right, mod-eq_of_lt, mul-add-div_right, div-eq_of_lt, div-add-mod', mod-lt,
  zero-mod, zero-div,
}
use valeo.Base.Run.{ok}
use valeo.Lock
use valeo.Timer.{Timer, Timers, tick, run_timers, timer_handler}

-- A timer after some ticks, and how often it has fired.
pub after : ℕ → Timer → Timer
after zero t = t
after (suc n) t = (tick (after n t)).0

pub fired : ℕ → Timer → ℕ
unfolding after
fired zero t = 0
fired (suc n) t = fired n t + (if (tick (after n t)).1 then 1 else 0)

abbrev pub fresh : (time_out handler : ℕ) → Timer
fresh time_out handler = record { time_out = time_out; time_out_left = time_out; handler = handler }

abbrev pub steady : (left handler : ℕ) → Timer
steady left handler = record { time_out = 0; time_out_left = left; handler = handler }

tick-count :
    (p h left : ℕ)
    → 0 < p
    → p < 2 ^ 32
    → 0 < left
    → left ≤ p
    → tick (record { time_out = p; time_out_left = left; handler = h }) ≡ (
      record { time_out = p; time_out_left = if left == 1 then p else left - 1; handler = h },
      left == 1,
    )
unfolding tick
tick-count p h left pos small lpos le = ground arith

divided : (n p q r : ℕ) → r < p → n ≡ q * p + r → (n % p ≡ r) × (n / p ≡ q)
divided n p q r h e = (
  ap (λ m. m % p) e ∙ mul-add-mod_self_right q p r ∙ mod-eq_of_lt h,
  ap (λ m. m / p) e
      ∙ mul-add-div_right (omega arith) q r
      ∙ ap (λ d. q + d) (div-eq_of_lt h)
      ∙ omega arith,
)

divided_suc :
    (n p : ℕ)
    → 0 < p
    → (suc n % p ≡ (if n % p + 1 == p then 0 else n % p + 1))
      × (suc n / p ≡ (if n % p + 1 == p then n / p + 1 else n / p))
divided_suc n p pos = elim (Bool-cases (n % p + 1 == p)) [
  | inl wraps ↦ rw wraps (divided (suc n) p (n / p + 1) 0 pos (ground (arith, div-add-mod' n p)))
  | inr goes ↦ rw goes (
      divided (suc n) p (n / p) (n % p + 1) (ground (arith, mod-lt n pos))
        (omega (arith, div-add-mod' n p)))
]

after-suc :
    (p h n : ℕ) (t : Timer)
    → 0 < p
    → p < 2 ^ 32
    → t ≡ record { time_out = p; time_out_left = p - n % p; handler = h }
    → (tick t).0 ≡ record { time_out = p; time_out_left = p - suc n % p; handler = h }
after-suc p h n t pos small e =
    ap (λ t. (tick t).0) e
    ∙ ap (λ r. r.0)
        (tick-count p h (p - n % p) pos small (omega (arith, mod-lt n pos)) (omega arith))
    ∙ ground (arith, divided_suc n p pos, mod-lt n pos)

-- A timer with a period from 1 to 2 ^ 32 - 1 fires at the end of each period: after `n` ticks it
-- has fired `n / p` times, and the ticks that are left are those to the end of the period.
pub after-fresh :
    (p h n : ℕ)
    → 0 < p
    → p < 2 ^ 32
    → (after n (fresh p h) ≡ record { time_out = p; time_out_left = p - n % p; handler = h })
      × (fired n (fresh p h) ≡ n / p)
unfolding after fired
after-fresh p h zero pos small = (
  ap (λ l. record { time_out = p; time_out_left = l; handler = h }) (omega (arith, zero-mod p)),
  sym (zero-div p),
)
after-fresh p h (suc n) pos small =
    let ih = after-fresh p h n pos small in
    let count =
      ap (λ t. (tick t).1) ih.0
      ∙ ap (λ r. r.1)
          (tick-count p h (p - n % p) pos small (omega (arith, mod-lt n pos)) (omega arith)) in
    (
      after-suc p h n (after n (fresh p h)) pos small ih.0,
      ap₂ (λ c (b : Bool). c + (if b then 1 else 0)) ih.1 count
          ∙ ground (arith, divided_suc n p pos, mod-lt n pos),
    )

-- A timer with no period fires at every tick, and stays as it is.
pub after-zero : (l h n : ℕ) → (after n (steady l h) ≡ steady l h) × (fired n (steady l h) ≡ n)
unfolding after fired tick
after-zero l h zero = (refl, refl)
after-zero l h (suc n) =
    let ih = after-zero l h n in
    (
      ap (λ t. (tick t).0) ih.0,
      ap₂ (λ c (t : Timer). c + (if (tick t).1 then 1 else 0)) ih.1 ih.0 ∙ omega arith,
    )

-- The handlers that one tick of the walk calls, in order.
pub called : List Timer → List ℕ
called [] = []
called (t ∷ rest) = if (tick t).1 then t.handler ∷ called rest else called rest

module _ {W : Type 0} (call : ℕ → W → W) where
  pub call_all : List ℕ → W → W
  call_all [] w = w
  call_all (h ∷ hs) w = call_all hs (call h w)

  run_timers_lem :
      (ts : List Timer) (w : W)
      → run_timers call ts w ≡ (map (λ t. (tick t).0) ts, call_all (called ts) w)
  unfolding run_timers call_all called
  run_timers_lem [] w = refl
  run_timers_lem (t ∷ ts) w = elim (Bool-cases (tick t).1) [
    | inl fires ↦
        rw fires (ap (λ r. ((tick t).0 ∷ r.0, r.1)) (run_timers_lem ts (call t.handler w)))
    | inr waits ↦ rw waits (ap (λ r. ((tick t).0 ∷ r.0, r.1)) (run_timers_lem ts w))
  ]

  -- A state like `s` with the lock free.
  abbrev pub free_lock : Timers W → Timers W
  free_lock s = record s { lock_word = 0 }

  timer_handler-at :
      (fuel : ℕ) (s : Timers W) (d : Bool)
      → timer_handler call (suc fuel) (record (free_lock s) { init_done = d })
        ≡ ok true (record (free_lock s) {
          init_done = d;
          timers = (run_timers call s.timers s.world).0;
          world = (run_timers call s.timers s.world).1;
        })
  unfolding timer_handler Lock.lock Lock.unlock
  timer_handler-at fuel s true = refl
  timer_handler-at fuel s false = refl

  -- With its lock free, `Timer_Handler` returns true with the lock free again. It has moved every
  -- timer on by one tick, and called the handlers of those that fire, in the order of the list.
  pub timer_handler_lem :
      (fuel : ℕ) (s : Timers W)
      → timer_handler call (suc fuel) (free_lock s)
        ≡ ok true (record (free_lock s) {
          timers = map (λ t. (tick t).0) s.timers;
          world = call_all (called s.timers) s.world;
        })
  timer_handler_lem fuel s =
      timer_handler-at fuel s s.init_done
      ∙ ap (λ r. ok true (record (free_lock s) { timers = r.0; world = r.1 }))
          (run_timers_lem s.timers s.world)
