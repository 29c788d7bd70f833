-- ===== src/Arch/Video.antt =====
-- src/arch/x86/textmodevideo.c: the text screen, its cursor, and scrolling. Video memory is indexed
-- from `g_pVideo`; `memcpy` and `memset` of include/lib/string.h are given by their effect on it.
pub mod Screen
use valeo.Base.{
  ℕ, zero, suc, ◌+◌, ◌-◌, ◌*◌, ◌/◌, ◌%◌, ◌^◌, Bool, List, [], ◌∷◌, ◌==◌, ltb, leb, ◌&&◌, ◌||◌,
  bit_and, if◌then◌else◌,
}
use valeo.Base.Run.{update}
use valeo.Arch.Pic.{PortIo, outb, inb}

abbrev pub columns : ℕ
columns = 80

abbrev pub rows : ℕ
rows = 25

abbrev pub u8 : ℕ → ℕ
u8 n = n % 2 ^ 8

abbrev pub u32 : ℕ → ℕ
u32 n = n % 2 ^ 32

-- The memory behind `g_pVideo`, `nX`, `nY`, `nPos` and `nAttr`, and the port accesses, the last first.
pub record Video : Type 0 where
  pub cells : ℕ → ℕ
  pub x : ℕ
  pub y : ℕ
  pub pos : ℕ
  pub attr : ℕ
  pub io : List PortIo

-- `memset (base + from, 0, count)` and `memcpy (base, base + from, count)`
abbrev pub clear : (from count : ℕ) → (ℕ → ℕ) → ℕ → ℕ
clear from count f j = if leb from j && ltb j (from + count) then 0 else f j

abbrev pub move_down : (from count : ℕ) → (ℕ → ℕ) → ℕ → ℕ
move_down from count f j = if ltb j count then f (j + from) else f j

-- `TextModeVideo_MoveCursor`
unfoldable pub move_cursor : Video → Video
move_cursor s =
    let position = u32 (u32 (s.y * 80) + s.x) in
    record s {
      io =
          outb 0x3d5 (bit_and (u8 (position / 2 ^ 8)) 0xff)
          ∷ outb 0x3d4 0xe
          ∷ outb 0x3d5 (bit_and (u8 position) 0xff)
          ∷ outb 0x3d4 0xf
          ∷ s.io;
    }

-- `TextModeVideo_Cls`
unfoldable pub cls : Video → Video
unfolding move_cursor
cls s =
    move_cursor (record s { cells = clear 0 (columns * rows * 2) s.cells; x = 0; y = 0; pos = 0 })

-- `TextModeVideo_Init`; `size` is what the read of the cursor size register returns.
unfoldable pub init : (size : ℕ) → Video → Video
unfolding cls
init size s =
    let max = bit_and size 0x1f in
    cls (record s {
      io =
          outb 0x3d5 max
          ∷ outb 0x3d4 0xb
          ∷ outb 0x3d5 (max / 2)
          ∷ outb 0x3d4 0xa
          ∷ inb 0x3d5
          ∷ outb 0x3d4 0x9
          ∷ s.io;
    })

-- `TextModeVideo_ChangeColour`
unfoldable pub change_colour : ℕ → Video → Video
change_colour colour s = record s { attr = colour }

-- The scroll at the last row of `TextModeVideo_WriteChar`.
pub scroll : Video → Video
scroll s = record s {
  cells =
      clear ((rows - 1) * columns * 2) (1 * columns * 2)
        (move_down (columns * 2) ((rows - 1) * columns * 2) s.cells);
  y = u32 (s.y + 2 ^ 32 - 1);
  pos = u32 (s.pos + 2 ^ 32 - 160);
}

-- The code at the label `newline`.
pub newline : Video → Video
unfolding scroll move_cursor
newline s =
    let y = u32 (s.y + 1) in
    let s' = record s { x = 0; y = y; pos = u32 (y * 160) } in
    move_cursor (if y == rows then scroll s' else s')

-- `TextModeVideo_WriteChar`
pub write_char : ℕ → Video → Video
write_char c s =
    if c == b'\n' || c == b'\r'
    then newline s
    else (let s' = record s {
      cells = update (update s.cells s.pos (bit_and c 0xff)) (u32 (s.pos + 1)) s.attr;
      x = u32 (s.x + 1);
      pos = u32 (s.pos + 2);
    } in
        if leb columns s'.x then newline s' else s')

-- `TextModeVideo_DeleteChar`
pub delete_char : Video → Video
delete_char s =
    let x = u32 (s.x + 2 ^ 32 - 1) in
    let pos = u32 (s.pos + 2 ^ 32 - 2) in
    record s { x = x; pos = pos; cells = update (update s.cells pos 0) (u32 (pos + 1)) s.attr }

-- `TextModeVideo_WriteString`; a string is the list of its bytes before the terminating 0.
pub write_string : List ℕ → Video → Video
unfolding write_char
write_string [] s = s
write_string (c ∷ text) s = write_string text (write_char c s)
