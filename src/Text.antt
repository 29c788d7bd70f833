-- ===== src/Text.antt =====
-- The text library: src/lib and include/lib. A string is the list of its bytes before the
-- terminating 0; a read at its end finds that 0.
pub mod Ctype
pub mod Strtol
pub mod Number
pub mod Directive
pub mod Printf
pub mod Scanf
