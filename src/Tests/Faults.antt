-- ===== src/Tests/Faults.antt =====
-- The dump of src/arch/x86/exception.c for two concrete stacks.
use valeo.Base.{ℕ, ◌+◌, ◌<◌, ◌%◌, ◌≡◌, ◌≢◌, refl, arith, ◌==◌, if◌then◌else◌, Bool-cases, inl, inr}
use valeo.Exception.Dump.{Frame, dump, dump-blind}

abbrev frame : Frame
frame = record {
  address = 0xf0012f00;
  eax = 1;
  ebx = 2;
  ecx = 3;
  edx = 4;
  ebp = 0xf0012fe0;
  esp = 0xf0012f80;
  esi = 5;
  edi = 6;
  cs = 8;
  eip = 0xf0001234;
  error = 2;
}

-- The return address in word 3 is lost.
abbrev with_return : ℕ → ℕ → ℕ
with_return p j = if j == 3 then 0xf0005678 else p + j

abbrev without_return : ℕ → ℕ → ℕ
without_return p j = if j == 3 then 0 else p + j

same_words : (j : ℕ) → j < 32 → j % 4 ≢ 3 → with_return frame.esp j ≡ without_return frame.esp j
same_words j h other = elim (Bool-cases (j == 3)) [
  | inl third ↦ absurd (other (ground arith))
  | inr off ↦ rw off refl
]

dump-blind_example : dump with_return frame ≡ dump without_return frame
dump-blind_example = dump-blind with_return without_return frame same_words
