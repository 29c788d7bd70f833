-- ===== src/Exception.antt =====
-- `Exception_Page` of src/arch/x86/exception.c, which maps zero-filled and heap pages on demand.
-- The dump of the registers and the message before the halt are output only, and are left out.
pub mod Fault
pub mod Dump
use valeo.Base.{ℕ, ◌+◌, ◌-◌, ◌/◌, ◌^◌, Bool, true, bit_and, ◌==◌, leb, ltb, ◌&&◌, if◌then◌else◌}
use valeo.Base.Run.{pure, halt, get, ◌>>=◌}
use valeo.Mm.Page.{Mm, u32, page_mask, zero_fill, get_pt_address, allocate}

-- The choice of `Exception_Page` between the two kinds of page and the halt; the heap area is that of
-- `g_sKernel`.
pub resolve : (heap_start heap_end page entry : ℕ) → Mm (Unit {0})
resolve heap_start heap_end page entry =
    if bit_and entry zero_fill == 0
    then (if leb heap_start page && ltb page heap_end then allocate page true else halt)
    else allocate page true

-- The handler, for the faulting address in CR2.
pub page_fault : (heap_start heap_end cr2 : ℕ) → Mm (Unit {0})
unfolding resolve
page_fault heap_start heap_end cr2 =
    let page = bit_and cr2 page_mask in
    get_pt_address page >>= λ pt. get >>= λ s.
    resolve heap_start heap_end page (s.pt_map (pt / 2 ^ 12 + u32 (page + 2 ^ 32 - pt) / 2 ^ 12))
