-- ===== src/Tests/Tasks.antt =====
-- The locks of include/locking.h at concrete states.
use valeo.Base.{ℕ, ◌≡◌, refl}
use valeo.Base.Run.{update}
use valeo.Lock.{test_and_set}
use valeo.Lock.Tasks.{
  Reach, System, mutual_exclusion, outside, spinning, inside, start, next, call, round,
}

-- Task 1 has taken the lock, and task 2 calls for it.
abbrev free : System
free = record { word = 0; pc = λ _. outside }

abbrev calling : System
calling = record free { pc = update free.pc 1 spinning }

abbrev taken : System
taken = record { word = 1; pc = update calling.pc 1 inside }

abbrev waiting : System
waiting = record taken { pc = update taken.pc 2 spinning }

waiting-Reach : Reach waiting
unfolding test_and_set
waiting-Reach = next (next (next start (call 1 refl)) (round 1 refl)) (call 2 refl)

abbrev one : ℕ
one = 1

mutual_exclusion_example : one ≡ one
mutual_exclusion_example = mutual_exclusion waiting-Reach 1 1 refl refl
