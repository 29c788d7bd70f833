-- ===== src/Text/Printf/Bounded.antt =====
-- What `vsnprintf` of src/lib/printf.c leaves in memory and returns.
use valeo.Base.{ℕ, suc, ◌+◌, ◌-◌, ◌^◌, ◌≤◌, ◌<◌, ◌≡◌, ◌⊎◌, List, length, get_or, min}
use valeo.Text.Number.{Out, put_all}
use valeo.Text.Printf.Render.{render}

-- The buffer holds as much of the text as leaves room for a 0, then the 0, and nothing else of memory
-- has changed.
pub record Holds (buf size : ℕ) (text : List ℕ) (before after : ℕ → ℕ) : Type 0 where
  pub chars : (j : ℕ) → j < min (length text) (size - 1) → after (buf + j) ≡ get_or text j 0
  pub ends : after (buf + min (length text) (size - 1)) ≡ 0
  pub same : (k : ℕ) → (k < buf) ⊎ (buf + size ≤ k) → after k ≡ before k

module _ (buf size : ℕ) (text : List ℕ) (mem : ℕ → ℕ) (pos : 0 < size)
    (small : buf + length text < 2 ^ 32) where
  abbrev start : Out
  start = record { buf = mem; at = buf }

  abbrev last : ℕ
  last = buf + size - 1

  full : Out
  full = put_all last text start

module _ (args : ℕ → ℕ) (string_at : ℕ → List ℕ) (buf size : ℕ) (fmt : List ℕ) (mem : ℕ → ℕ) where
  -- The text of the whole format.
  unfoldable pub rendered : List ℕ
  rendered = render args string_at (suc (length fmt)) fmt 0
