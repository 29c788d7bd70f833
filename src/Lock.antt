-- ===== src/Lock.antt =====
-- Locks: include/locking.h over the spinlock of include/arch/x86/spinlock.h and the exchange of
-- include/arch/x86/atomic.h. A lock is its word; `init_done` is `g_bKernelInitDone`.
pub mod Tasks
use valeo.Base.{
  ℕ, zero, suc, ◌%◌, ◌^◌, ◌≡◌, ◌≢◌, ◌↔◌, refl, arith, ◌⊎◌, inl, inr, Bool, true, false, ◌==◌, not,
  if◌then◌else◌,
}
use valeo.Base.Run.{Run, ok, looping}

-- `Atomic_TestAndSet`: the new word and the old one.
unfoldable pub test_and_set : ℕ → ℕ × ℕ
test_and_set word = (1, word)

-- `Spinlock_Init`, and `Spinlock_Unlock`.
abbrev pub unlocked : ℕ
unlocked = 0

-- `Spinlock_Lock`, with fuel for the spinning: alone on the processor, each round finds the word that
-- the round before has stored.
unfoldable pub spin_lock : (fuel : ℕ) → ℕ → Run ℕ (Unit {0})
unfolding test_and_set
spin_lock zero word = looping
spin_lock (suc fuel) word =
    let (word', old) = test_and_set word in
    let rest = spin_lock fuel word' in if old == 0 then ok tt word' else rest

-- `Spinlock_TryLock`, which returns the word that it found as a bool, an unsigned char.
pub spin_try_lock : ℕ → ℕ × ℕ
unfolding test_and_set
spin_try_lock word = let (word', old) = test_and_set word in (word', old % 2 ^ 8)

-- `Lock_Init`, `Lock_Lock`, `Lock_TryLock` and `Lock_Unlock`.
unfoldable pub init : ℕ → ℕ
init word = unlocked

unfoldable pub lock : (init_done : Bool) (fuel : ℕ) → ℕ → Run ℕ (Unit {0})
unfolding spin_lock
lock init_done fuel word = if init_done then spin_lock fuel word else ok tt word

pub try_lock : (init_done : Bool) → ℕ → ℕ × Bool
unfolding spin_try_lock
try_lock init_done word =
    if init_done
    then (let (word', old) = spin_try_lock word in (word', not (old == 0)))
    else (word, false)

unfoldable pub unlock : (init_done : Bool) → ℕ → ℕ
unlock init_done word = if init_done then unlocked else word

-- With a round to go a free lock is taken.
pub lock-free : (fuel : ℕ) → lock true (suc fuel) unlocked ≡ ok tt 1
unfolding lock
lock-free fuel = refl

-- Nothing ends the wait for a lock that the waiter itself holds.
pub lock-held : (fuel : ℕ) → lock true fuel 1 ≡ looping
unfolding lock
lock-held zero = refl
lock-held (suc fuel) = lock-held fuel

-- Before `g_bKernelInitDone` is set, `Lock_Lock` does nothing.
pub lock-early : (fuel word : ℕ) → lock false fuel word ≡ ok tt word
unfolding lock
lock-early fuel word = refl

-- After `g_bKernelInitDone` is set, a call of `Lock_Lock` either returns with the lock taken or spins.
pub lock-cases : (fuel word : ℕ) → (lock true fuel word ≡ ok tt 1) ⊎ (lock true fuel word ≡ looping)
unfolding lock
lock-cases zero word = inr refl
lock-cases (suc fuel) zero = inl refl
lock-cases (suc fuel) (suc word) =
    let e : (suc word == 0) ≡ false = ground arith in inr (rw e (lock-held fuel))
