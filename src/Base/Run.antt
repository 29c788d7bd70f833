-- ===== src/Base/Run.antt =====
-- Commands over a state that return a value, or stop the machine: `halt` of src/boot.S disables
-- interrupts and loops for ever, so a command that calls it never returns. A halted run keeps the
-- state in which the machine stopped. `looping` stands for a loop that has used up its fuel.
use Prim.Native.Nat.{ℕ}
use valeo.Base.Tests.{◌==◌, if◌then◌else◌}

pub data Run (S A : Type 0) : Type 0 where
  ok : A → S → Run S A
  halted : S → Run S A
  looping : Run S A

abbrev pub Cmd : Type 0 → Type 0 → Type 0
Cmd S A = S → Run S A

abbrev pub pure : {S A : Type 0} → A → Cmd S A
pure a s = ok a s

abbrev pub halt : {S A : Type 0} → Cmd S A
halt s = halted s

abbrev pub get : {S : Type 0} → Cmd S S
get s = ok s s

abbrev pub modify : {S : Type 0} → (S → S) → Cmd S (Unit {0})
modify f s = ok tt (f s)

abbrev pub and_then : {S A B : Type 0} → Run S A → (A → Cmd S B) → Run S B
and_then (ok a s) k = k a s
and_then (halted s) k = halted s
and_then looping k = looping

infixl 5 ◌>>=◌ ◌>>◌
abbrev pub ◌>>=◌ : {S A B : Type 0} → Cmd S A → (A → Cmd S B) → Cmd S B
◌>>=◌ m k s = and_then (m s) k

abbrev pub ◌>>◌ : {S A B : Type 0} → Cmd S A → Cmd S B → Cmd S B
◌>>◌ m k s = and_then (m s) (λ _. k)

-- An array, or a region of memory, written at one index.
abbrev pub update {ℓ} : {A : Type ℓ} → (ℕ → A) → ℕ → A → ℕ → A
update f i a j = if j == i then a else f j

-- Total correctness: the run returns, and its value and state satisfy `P`.
abbrev pub Returns : {S A : Type 0} → (A → S → Type 0) → Run S A → Type 0
Returns P (ok a s) = P a s
Returns P (halted s) = ⊥
Returns P looping = ⊥

-- Partial correctness: if the run returns, its value and state satisfy `P`.
abbrev pub Ensures : {S A : Type 0} → (A → S → Type 0) → Run S A → Type 0
Ensures P (ok a s) = P a s
Ensures P (halted s) = Unit {0}
Ensures P looping = Unit {0}

pub Returns-bind :
    {S A B : Type 0} (P : A → S → Type 0) (Q : B → S → Type 0) (r : Run S A) (k : A → Cmd S B)
    → Returns P r
    → ((a : A) (s : S) → P a s → Returns Q (k a s))
    → Returns Q (and_then r k)
Returns-bind P Q (ok a s) k p next = next a s p
Returns-bind P Q (halted s) k p next = absurd p
Returns-bind P Q looping k p next = absurd p

pub Ensures-bind :
    {S A B : Type 0} (P : A → S → Type 0) (Q : B → S → Type 0) (r : Run S A) (k : A → Cmd S B)
    → Ensures P r
    → ((a : A) (s : S) → P a s → Ensures Q (k a s))
    → Ensures Q (and_then r k)
Ensures-bind P Q (ok a s) k p next = next a s p
Ensures-bind P Q (halted s) k p next = tt
Ensures-bind P Q looping k p next = tt

pub Ensures-mono :
    {S A : Type 0} (P Q : A → S → Type 0) (r : Run S A)
    → Ensures P r
    → ((a : A) (s : S) → P a s → Q a s)
    → Ensures Q r
Ensures-mono P Q (ok a s) p weaken = weaken a s p
Ensures-mono P Q (halted s) p weaken = tt
Ensures-mono P Q looping p weaken = tt

pub Returns-mono :
    {S A : Type 0} (P Q : A → S → Type 0) (r : Run S A)
    → Returns P r
    → ((a : A) (s : S) → P a s → Q a s)
    → Returns Q r
Returns-mono P Q (ok a s) p weaken = weaken a s p
Returns-mono P Q (halted s) p weaken = absurd p
Returns-mono P Q looping p weaken = absurd p

-- A command on a part of the state.
abbrev pub zoomed : {S T A : Type 0} → (T → S → S) → S → Run T A → Run S A
zoomed put s (ok a t) = ok a (put t s)
zoomed put s (halted t) = halted (put t s)
zoomed put s looping = looping

abbrev pub zoom : {S T A : Type 0} → (S → T) → (T → S → S) → Cmd T A → Cmd S A
zoom part put c s = zoomed put s (c (part s))

pub Returns-zoomed :
    {S T A : Type 0} (P : A → T → Type 0) (Q : A → S → Type 0) (put : T → S → S) (s : S)
    (r : Run T A)
    → Returns P r
    → ((a : A) (t : T) → P a t → Q a (put t s))
    → Returns Q (zoomed put s r)
Returns-zoomed P Q put s (ok a t) p next = next a t p
Returns-zoomed P Q put s (halted t) p next = absurd p
Returns-zoomed P Q put s looping p next = absurd p
