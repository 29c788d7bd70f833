-- ===== src/Exception/Dump.antt =====
-- The handlers of src/arch/x86/exception.c that only write messages, and the dump of the stack. A message
-- is its values; the words of the stack are a function of the index.
use valeo.Base.{
  ℕ, zero, suc, ◌+◌, ◌*◌, ◌%◌, ◌<◌, ◌≡◌, ◌≢◌, refl, ap, arith, List, [], ◌∷◌, ◌++◌, ltb,
  if◌then◌else◌, Bool-cases, inl, inr,
}
use valeo.Base.Run.{Cmd, halt, modify, ◌>>◌}

-- The fields of `sCallStack_t` and `sCallStackWithErrorCode_t` that are printed; `esp` is where the
-- stack lies.
pub record Frame : Type 0 where
  pub address : ℕ
  pub eax : ℕ
  pub ebx : ℕ
  pub ecx : ℕ
  pub edx : ℕ
  pub ebp : ℕ
  pub esp : ℕ
  pub esi : ℕ
  pub edi : ℕ
  pub cs : ℕ
  pub eip : ℕ
  pub error : ℕ

-- The messages, in the order of the file.
pub data Message : Type 0 where
  pointer : (address : ℕ) → Message
  registers pointers : (a b c d : ℕ) → Message
  offset_word : (offset word : ℕ) → Message
  word : ℕ → Message
  last_word : ℕ → Message
  unhandled : (page cs eip error flags : ℕ) → Message
  debug_fault invalid_opcode double_fault stack_fault gpf : (cs eip : ℕ) → Message

-- A round of the loop of `TraceDumpStackWithError`: `i++` stands behind the index.
pub round : (stack : ℕ → ℕ) (i : ℕ) → List Message
round stack i =
    offset_word (i * 4) (stack i)
    ∷ word (stack i)
    ∷ word (stack (i + 1))
    ∷ last_word (stack (i + 2))
    ∷ []

-- The loop. With its own `i++` a round moves on by four; nine rounds are enough.
pub trace : (fuel : ℕ) (stack : ℕ → ℕ) (i : ℕ) → List Message
unfolding round
trace zero stack i = []
trace (suc fuel) stack i =
    let rest = trace fuel stack (i + 4) in if ltb i 32 then round stack i ++ rest else []

-- `TraceDumpStackWithError`
pub dump : (stack_at : ℕ → ℕ → ℕ) → Frame → List Message
unfolding trace
dump stack_at f =
    pointer f.address
    ∷ registers f.eax f.ebx f.ecx f.edx
    ∷ pointers f.ebp f.esp f.esi f.edi
    ∷ trace 9 (stack_at f.esp) 0

-- The log is the messages so far.
abbrev pub say : List Message → Cmd (List Message) (Unit {0})
say ms = modify (λ log. log ++ ms)

-- `Exception_Debug`, `Exception_InvalidOpCode`, `Exception_Double`, `Exception_StackFault`: they return.
unfoldable pub debug : Frame → Cmd (List Message) (Unit {0})
debug f = say (debug_fault f.cs f.eip ∷ [])

unfoldable pub invalid_op_code : Frame → Cmd (List Message) (Unit {0})
invalid_op_code f = say (invalid_opcode f.cs f.eip ∷ [])

unfoldable pub double : Frame → Cmd (List Message) (Unit {0})
double f = say (double_fault f.cs f.eip ∷ [])

unfoldable pub stack : Frame → Cmd (List Message) (Unit {0})
stack f = say (stack_fault f.cs f.eip ∷ [])

-- `Exception_GPF`
unfoldable pub general_protection : Frame → Cmd (List Message) (Unit {0})
general_protection f = do say (gpf f.cs f.eip ∷ []); halt

-- `Exception_Page` where it maps nothing: the dump, the message, and the halt.
unfoldable pub unhandled_page :
    (stack_at : ℕ → ℕ → ℕ) (page flags : ℕ) → Frame → Cmd (List Message) (Unit {0})
unfolding dump
unhandled_page stack_at page flags f = do
  say (dump stack_at f)
  say (unhandled page f.cs f.eip f.error flags ∷ [])
  halt

-- Nine rounds of fuel are enough: more give no more messages.
pub trace-enough :
    (more : ℕ) (p : ℕ → ℕ)
    → trace (suc (suc (suc (suc (suc (suc (suc (suc (suc more))))))))) p 0 ≡ trace 9 p 0
unfolding trace
trace-enough more p = refl

trace-same :
    (fuel r : ℕ) (p q : ℕ → ℕ)
    → ((j : ℕ) → j < 32 → j % 4 ≢ 3 → p j ≡ q j)
    → trace fuel p (4 * r) ≡ trace fuel q (4 * r)
unfolding trace round
trace-same zero r p q same = refl
trace-same (suc fuel) r p q same = elim (Bool-cases (ltb (4 * r) 32)) [
  | inl more ↦
      let a : p (4 * r) ≡ q (4 * r) = same (4 * r) (ground arith) (λ e. omega (arith, e)) in
      let b : p (4 * r + 1) ≡ q (4 * r + 1) =
        same (4 * r + 1) (ground arith) (λ e. omega (arith, e)) in
      let c : p (4 * r + 2) ≡ q (4 * r + 2) =
        same (4 * r + 2) (ground arith) (λ e. omega (arith, e)) in
      let next : 4 * r + 4 ≡ 4 * (r + 1) = omega arith in
      rw (more, next, a, b, c)
        (ap (λ rest. round q (4 * r) ++ rest) (trace-same fuel (r + 1) p q same))
  | inr done ↦ rw done refl
]

-- Two stacks that have the same words among the first 32, up to every fourth, give the same dump: it shows
-- none of the words 3, 7, 11 and so on.
pub dump-blind :
    (stack_at stack_at' : ℕ → ℕ → ℕ) (f : Frame)
    → ((j : ℕ) → j < 32 → j % 4 ≢ 3 → stack_at f.esp j ≡ stack_at' f.esp j)
    → dump stack_at f ≡ dump stack_at' f
unfolding dump
dump-blind stack_at stack_at' f same =
    ap
      (λ t.
        pointer f.address
        ∷ registers f.eax f.ebx f.ecx f.edx
        ∷ pointers f.ebp f.esp f.esi f.edi
        ∷ t)
      (trace-same 9 0 (stack_at f.esp) (stack_at' f.esp) same)
