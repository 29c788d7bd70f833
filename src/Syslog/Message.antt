-- ===== src/Syslog/Message.antt =====
-- What `Syslog_Entry` of src/syslog.c shows of a format and its arguments.
use valeo.Base.{ℕ, List, [], ◌∷◌, ◌==◌, if◌then◌else◌}
use valeo.Arch.Video.{Video}

-- A text up to its first 0.
unfoldable pub until_zero : List ℕ → List ℕ
until_zero [] = []
until_zero (c ∷ text) = let rest = until_zero text in if c == 0 then [] else c ∷ rest
