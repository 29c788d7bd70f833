-- ===== src/Lock/Tasks.antt =====
-- Tasks on any number of processors that take one lock of include/locking.h in turn, in any
-- interleaving of their atomic steps.
use valeo.Base.{ℕ, ◌≡◌, refl, true, ◌==◌, if◌then◌else◌, arith, ◌⊎◌, inl, inr}
use valeo.Base.Run.{update}
use valeo.Lock.{test_and_set, unlock, unlocked}

-- What a task does next: nothing with the lock, a round of `Spinlock_Lock`, or it is between its
-- `Lock_Lock` and its `Lock_Unlock`.
pub data Pc : Type 0 where
  outside spinning inside : Pc

pub record System : Type 0 where
  pub word : ℕ
  pub pc : ℕ → Pc

-- One round of the loop in `Spinlock_Lock`: the exchange, and where the task is after its test.
abbrev pub spin : ℕ → ℕ × Pc
spin word = let (word', old) = test_and_set word in (word', if old == 0 then inside else spinning)

-- The steps after `g_bKernelInitDone` is set.
pub data Step (s : System) : System → Type 0 where
  call : (i : ℕ) → s.pc i ≡ outside → Step s (record s { pc = update s.pc i spinning })
  round :
      (i : ℕ)
      → s.pc i ≡ spinning
      → Step s (record { word = (spin s.word).0; pc = update s.pc i (spin s.word).1 })
  release :
      (i : ℕ)
      → s.pc i ≡ inside
      → Step s (record { word = unlock true s.word; pc = update s.pc i outside })

pub data Reach : System → Type 0 where
  start : Reach (record { word = unlocked; pc = λ _. outside })
  next : {s t : System} → Reach s → Step s t → Reach t

-- The word is 1 while a task is inside, and no two tasks are.
pub record Inv (s : System) : Type 0 where
  pub binary : (s.word ≡ 0) ⊎ (s.word ≡ 1)
  pub held : (i : ℕ) → s.pc i ≡ inside → s.word ≡ 1
  pub one : (i j : ℕ) → s.pc i ≡ inside → s.pc j ≡ inside → i ≡ j

Step-Inv : {s t : System} → Step s t → Inv s → Inv t
unfolding test_and_set unlock
Step-Inv (call i e) v = record {
  binary = v.binary;
  held = λ j h. ground (arith, v.held j);
  one = λ j k p q. ground (arith, v.one j k);
}
Step-Inv (round i e) v = record {
  binary = inr refl;
  held = λ j h. refl;
  one = λ j k p q. ground (arith, v.one j k, v.held j, v.held k);
}
Step-Inv (release i e) v = record {
  binary = inl refl;
  held = λ j h. ground (arith, v.one i j);
  one = λ j k p q. ground (arith, v.one j k, v.one i j, v.one i k);
}

Reach-Inv : {s : System} → Reach s → Inv s
Reach-Inv start = record { binary = inl refl; held = λ i h. cc; one = λ i j h. cc }
Reach-Inv (next r st) = Step-Inv st (Reach-Inv r)

-- In every reachable state, two tasks between `Lock_Lock` and `Lock_Unlock` are one.
pub mutual_exclusion :
    {s : System} → Reach s → (i j : ℕ) → s.pc i ≡ inside → s.pc j ≡ inside → i ≡ j
mutual_exclusion r i j = (Reach-Inv r).one i j
