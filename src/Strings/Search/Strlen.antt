-- ===== src/Strings/Search/Strlen.antt =====
-- The two length routines of include/lib/string.h at a C string.
use valeo.Base.{
  ℕ, zero, suc, ◌+◌, ◌<◌, ◌≡◌, ap, ◌∙◌, arith, List, [], ◌∷◌, some, ◌==◌, min, length, false, true,
}
use valeo.Strings.Text.{Memory, IsString, IsString-tail, IsString-end}
use valeo.Strings.Search.{strlen_loop, distance, strlen, strnlen_loop, strnlen}

strlen_loop_lem :
    (m : Memory) (fuel s : ℕ) (text : List ℕ)
    → IsString m s text
    → length text < fuel
    → strlen_loop m fuel s ≡ some (s + length text + 1)
unfolding strlen_loop
strlen_loop_lem m zero s text t enough = absurd (omega arith)
strlen_loop_lem m (suc fuel) s [] t enough =
    let end : (m s == 0) ≡ true = ground (arith, IsString-end s t) in rw end (ap some (omega arith))
strlen_loop_lem m (suc fuel) s (c ∷ text) t enough =
    let here : (m s == 0) ≡ false = ground (arith, t.bytes.0, t.no_zero.0) in
    rw here (
      strlen_loop_lem m fuel (s + 1) text (IsString-tail s c text t) (omega arith)
      ∙ ap some (omega arith))

-- At a C string, with a round for each byte and one more, `strlen` ends and gives the length.
pub strlen_lem :
    (m : Memory) (fuel s : ℕ) (text : List ℕ)
    → IsString m s text
    → length text < fuel
    → strlen m fuel s ≡ some (length text)
unfolding strlen distance
strlen_lem m fuel s text t enough =
    ap (distance m s) (strlen_loop_lem m fuel s text t enough) ∙ ap some (omega arith)

strnlen_loop_lem :
    (m : Memory) (count s : ℕ) (text : List ℕ)
    → IsString m s text
    → strnlen_loop m count s ≡ s + min count (length text)
unfolding strnlen_loop
strnlen_loop_lem m zero s text t = omega arith
strnlen_loop_lem m (suc count) s [] t =
    let end : (m s == 0) ≡ true = ground (arith, IsString-end s t) in rw end (omega arith)
strnlen_loop_lem m (suc count) s (c ∷ text) t =
    let here : (m s == 0) ≡ false = ground (arith, t.bytes.0, t.no_zero.0) in
    rw here (strnlen_loop_lem m count (s + 1) text (IsString-tail s c text t) ∙ omega arith)

pub strnlen_lem :
    (m : Memory) (s count : ℕ) (text : List ℕ)
    → IsString m s text
    → strnlen m s count ≡ min count (length text)
unfolding strnlen
strnlen_lem m s count text t = omega (arith, strnlen_loop_lem m count s text t)
