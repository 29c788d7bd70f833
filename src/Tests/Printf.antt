-- ===== src/Tests/Printf.antt =====
-- `vsnprintf` of src/lib/printf.c, and `Syslog_Entry` of src/syslog.c, at a concrete format and buffer.
use valeo.Base.{ℕ, List, [], ◌∷◌}
use valeo.Text.Number.{Out, put_all}
use valeo.Arch.Video.{Video}
use valeo.Text.Printf.{Printer}

-- "=%5d%%" with the argument 42
abbrev argument : ℕ → ℕ
argument k = 42

abbrev no_strings : ℕ → List ℕ
no_strings p = []

abbrev field : List ℕ
field = b'=' ∷ b'%' ∷ b'5' ∷ b'd' ∷ b'%' ∷ b'%' ∷ []

abbrev field_text : List ℕ
field_text = b'=' ∷ b' ' ∷ b' ' ∷ b' ' ∷ b'4' ∷ b'2' ∷ b'%' ∷ []

abbrev memory : ℕ → ℕ
memory k = 7

abbrev printer : Printer
printer = record { out = record { buf = memory; at = 4096 }; arg = 0; stores = [] }

abbrev screen : Video
screen = record { cells = λ _. 0; x = 70; y = 24; pos = 3980; attr = 7; io = [] }
