-- ===== src/Arch/Video/Screen.antt =====
-- The cursor stays on the screen, and nothing is written beyond the screen's 4000 bytes.
use valeo.Base.{
  ℕ, ◌+◌, ◌-◌, ◌*◌, ◌≤◌, ◌<◌, ◌≡◌, refl, ◌∙◌, arith, List, [], ◌∷◌, ◌==◌, ltb, leb, ◌||◌, bit_and,
  if◌then◌else◌, Bool-cases, inl, inr,
}
use valeo.Base.Run.{update}
use valeo.Arch.Video.{
  Video, columns, rows, u32, move_cursor, cls, scroll, newline, write_char, write_string,
  delete_char,
}

-- The cursor is on the screen, and `nPos` is its place in memory.
pub record OnScreen (s : Video) : Type 0 where
  pub column : s.x < columns
  pub row : s.y < rows
  pub place : s.pos ≡ s.y * 160 + s.x * 2

-- Two states that agree beyond the screen.
abbrev pub SameBeyond : Video → Video → Type 0
SameBeyond s t = (j : ℕ) → 4000 ≤ j → t.cells j ≡ s.cells j

pub record Stays (s t : Video) : Type 0 where
  pub on_screen : OnScreen t
  pub beyond : (j : ℕ) → 4000 ≤ j → t.cells j ≡ s.cells j

newline-Stays : (s : Video) → s.y < rows → Stays s (newline s)
unfolding newline scroll move_cursor
newline-Stays s h = record {
  on_screen = record { column = ground arith; row = ground arith; place = ground arith };
  beyond = λ j p. ground arith;
}

-- The character and its attribute, stored at the cursor.
abbrev stored : ℕ → Video → Video
stored c s = record s {
  cells = update (update s.cells s.pos (bit_and c 0xff)) (u32 (s.pos + 1)) s.attr;
  x = u32 (s.x + 1);
  pos = u32 (s.pos + 2);
}

stored-beyond :
    (c : ℕ) (s : Video) → OnScreen s → (j : ℕ) → 4000 ≤ j → (stored c s).cells j ≡ s.cells j
stored-beyond c s v j p = ground arith

-- From a state with the cursor on the screen, `TextModeVideo_WriteChar` keeps it there, at the place
-- in memory that its row and column say, and writes no byte beyond the screen.
pub write_char-Stays : (c : ℕ) (s : Video) → OnScreen s → Stays s (write_char c s)
unfolding write_char
write_char-Stays c s v = elim (Bool-cases (c == b'\n' || c == b'\r')) [
  | inl line ↦ rw line (newline-Stays s v.row)
  | inr other ↦ elim (Bool-cases (leb columns (u32 (s.x + 1)))) [
    | inl full ↦
        let t = newline-Stays (stored c s) v.row in
        rw (other, full)
          (record {
            on_screen = t.on_screen;
            beyond = λ j p. t.beyond j p ∙ stored-beyond c s v j p;
          })
    | inr room ↦
        rw (other, room)
          (record {
            on_screen = record { column = ground arith; row = v.row; place = ground arith };
            beyond = stored-beyond c s v;
          })
  ]
]

-- From a state with the cursor on the screen, `TextModeVideo_WriteString` of any text keeps it
-- there, at the place in memory that its row and column say, and writes no byte beyond the screen.
pub write_string-Stays : (text : List ℕ) (s : Video) → OnScreen s → Stays s (write_string text s)
unfolding write_string
write_string-Stays [] s v = record { on_screen = v; beyond = λ j p. refl }
write_string-Stays (c ∷ text) s v =
    let one = write_char-Stays c s v in
    let rest = write_string-Stays text (write_char c s) one.on_screen in
    record { on_screen = rest.on_screen; beyond = λ j p. rest.beyond j p ∙ one.beyond j p }

-- After `TextModeVideo_Cls` the cursor is at the top left, the screen is empty, and memory beyond
-- it is as before.
pub cls_lem :
    (s : Video)
    → OnScreen (cls s)
      × ((cls s).x ≡ 0)
      × ((cls s).y ≡ 0)
      × ((j : ℕ) → (cls s).cells j ≡ (if ltb j 4000 then 0 else s.cells j))
unfolding cls move_cursor
cls_lem s = (
  record { column = omega arith; row = omega arith; place = refl },
  refl,
  refl,
  λ j. ground arith,
)

-- From the last row, a new line scrolls: each row takes the bytes of the row below it, the last row
-- becomes empty, and the cursor goes to the start of the last row.
pub newline-scrolls :
    (s : Video) (j : ℕ)
    → s.y ≡ rows - 1
    → ((newline s).cells j
        ≡ (if ltb j 3840 then s.cells (j + 160) else if ltb j 4000 then 0 else s.cells j))
      × ((newline s).y ≡ rows - 1)
      × ((newline s).x ≡ 0)
unfolding newline scroll move_cursor
newline-scrolls s j h = ground arith

-- From the first column, `TextModeVideo_DeleteChar` takes the cursor off the screen.
pub delete_char-off : (s : Video) → OnScreen s → s.x ≡ 0 → columns ≤ (delete_char s).x
unfolding delete_char
delete_char-off s v h = omega arith
