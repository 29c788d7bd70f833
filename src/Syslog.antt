-- ===== src/Syslog.antt =====
-- src/syslog.c: one entry of the system log, formatted by `vsnprintf` into a buffer on the stack and
-- written to the text screen.
pub mod Message
use valeo.Base.{
  ℕ, zero, suc, ◌+◌, ◌-◌, ◌^◌, refl, ◌∙◌, Bool, true, false, List, [], ◌∷◌, ◌==◌, if◌then◌else◌,
  Option, none, some, length,
}
use valeo.Base.Run.{Cmd}
use valeo.Lock
use valeo.Text.Printf.{Printed, vsnprintf}
use valeo.Arch.Video.{Video, u32, change_colour, write_char, write_string}
use valeo.Arch.Video.Screen.{OnScreen, Stays, write_char-Stays, write_string-Stays}

-- `Syslog_Init`, `Syslog_Lock` and `Syslog_Unlock`, on the word of their lock
unfoldable pub init : ℕ → ℕ
init word = Lock.init word

pub lock : (init_done : Bool) (fuel : ℕ) → Cmd ℕ (Unit {0})
lock init_done fuel word = Lock.lock init_done fuel word

pub unlock : (init_done : Bool) → ℕ → ℕ
unlock init_done word = Lock.unlock init_done word

-- The loop that pads with spaces.
pub pad : (rounds : ℕ) → Video → Video
pad zero s = s
pad (suc rounds) s = pad rounds (write_char b' ' s)

-- The name of the module, padded to 12 characters, and the separator; the difference is one of 32 bits.
pub write_module : (name : List ℕ) → Video → Video
unfolding pad
write_module name s =
    let named = write_string name (change_colour 9 s) in
    let padded = pad (u32 (12 + 2 ^ 32 - u32 (length name))) named in
    write_char b' ' (write_char b'-' (write_char b' ' (change_colour 13 padded)))

-- `Syslog_Entry`, but for the text in the buffer
pub entry : (quiet : Bool) (name : Option (List ℕ)) (text : List ℕ) → Video → Video
unfolding write_module
entry true name text s = s
entry false none text s = write_string text (change_colour 7 s)
entry false (some name) text s = write_string text (change_colour 7 (write_module name s))

-- The C string at `p`, of fewer than `room` bytes.
pub string_from : (m : ℕ → ℕ) (room p : ℕ) → List ℕ
string_from m zero p = []
string_from m (suc room) p =
    let rest = string_from m room (p + 1) in if m p == 0 then [] else m p ∷ rest

write_entry :
    (quiet : Bool) (name : Option (List ℕ)) (buffer : ℕ) → Option Printed → Video → Option Video
unfolding entry string_from
write_entry quiet name buffer none s = none
write_entry quiet name buffer (some r) s = some (entry quiet name (string_from r.mem 1024 buffer) s)

-- `Syslog_Entry`, with the buffer of 1024 bytes at an address
pub log :
    (args : ℕ → ℕ) (string_at : ℕ → List ℕ) (quiet : Bool) (name : Option (List ℕ)) (buffer : ℕ)
    (fmt : List ℕ) (mem : ℕ → ℕ)
    → Video
    → Option Video
unfolding write_entry
log args string_at quiet name buffer fmt mem s =
    let shown = write_entry quiet name buffer (vsnprintf args string_at buffer 1024 fmt mem) s in
    if quiet then some s else shown

then_Stays : {s t u : Video} → Stays s t → Stays t u → Stays s u
then_Stays p q = record { on_screen = q.on_screen; beyond = λ j h. q.beyond j h ∙ p.beyond j h }

change_colour-Stays : (c : ℕ) (s : Video) → OnScreen s → Stays s (change_colour c s)
unfolding change_colour
change_colour-Stays c s v = record {
  on_screen = record { column = v.column; row = v.row; place = v.place };
  beyond = λ j h. refl;
}

pad-Stays : (rounds : ℕ) (s : Video) → OnScreen s → Stays s (pad rounds s)
unfolding pad
pad-Stays zero s v = record { on_screen = v; beyond = λ j h. refl }
pad-Stays (suc rounds) s v =
    let one = write_char-Stays b' ' s v in
    then_Stays one (pad-Stays rounds (write_char b' ' s) one.on_screen)

write_module-Stays : (name : List ℕ) (s : Video) → OnScreen s → Stays s (write_module name s)
unfolding write_module
write_module-Stays name s v =
    let a = change_colour-Stays 9 s v in
    let b = then_Stays a (write_string-Stays name _ a.on_screen) in
    let c = then_Stays b (pad-Stays (u32 (12 + 2 ^ 32 - u32 (length name))) _ b.on_screen) in
    let d = then_Stays c (change_colour-Stays 13 _ c.on_screen) in
    let e = then_Stays d (write_char-Stays b' ' _ d.on_screen) in
    let f = then_Stays e (write_char-Stays b'-' _ e.on_screen) in
    then_Stays f (write_char-Stays b' ' _ f.on_screen)

-- From a state with the cursor on the screen, `Syslog_Entry` keeps it there, in quiet mode or not and
-- with a module name or none, and writes no byte beyond the screen.
pub entry-Stays :
    (quiet : Bool) (name : Option (List ℕ)) (text : List ℕ) (s : Video)
    → OnScreen s
    → Stays s (entry quiet name text s)
unfolding entry
entry-Stays true name text s v = record { on_screen = v; beyond = λ j h. refl }
entry-Stays false none text s v =
    let a = change_colour-Stays 7 s v in then_Stays a (write_string-Stays text _ a.on_screen)
entry-Stays false (some name) text s v =
    let a = write_module-Stays name s v in
    let b = then_Stays a (change_colour-Stays 7 _ a.on_screen) in
    then_Stays b (write_string-Stays text _ b.on_screen)
