-- ===== src/Lib.antt =====
-- Valeo, a small microkernel for 32-bit x86: the routines that manage memory, interrupts, timers and
-- the screen, and the conversions of its C library.
--
-- The parts, from the bottom:
-- - Base: numbers, lists, bits, and `Run`, a command over a state that returns, halts the machine, or
--   is still in a loop when its fuel is used up.
-- - Lock: include/locking.h over include/arch/x86/spinlock.h and atomic.h. `lock` is Lock_Lock, and the
--   fuel counts its rounds: one is enough for a free lock, and none is for a lock that the waiter
--   holds. Tasks has any number of tasks that take one lock in turn, as a step relation.
-- - Arch/Descriptor: src/arch/x86/descriptor.c. Arch/Pic: src/arch/x86/8259a.c, with the port accesses
--   in order. Arch/Video: src/arch/x86/textmodevideo.c, with video memory indexed from g_pVideo.
-- - Interrupt: src/interrupt.c. A chain is the list of its handlers, the newest in front. `handle` is
--   Interrupt_Handle, `attach_handler` Interrupt_AttachHandler, `init` Interrupt_Init. It calls the
--   locks, the heap, the controller and the descriptors. A handler is a function on the rest of the system.
-- - Timer: src/timer.c; `timer_handler` is Timer_Handler, `tick` its work on one timer. The nodes of its
--   list and those of the interrupts take memory from the heap, and stand in the model as lists.
-- - Mm/Page: src/mm_page.c. The page table map and the stack of free pages are
--   functions from indices, as the kernel reaches them through g_sKernel. The directory is its own last
--   table, so `pd`, its entries, are those of the map from `window` on, and a write to one is seen in the
--   other; writes to CR3, invalidated
--   pages and cleared memory are a list of effects. `map` is MM_Page_Map, `map_zero_fill`
--   MM_Page_MapZeroFill, `unmap` MM_Page_Unmap, `allocate` MM_Page_Allocate, `free` MM_Page_Free,
--   `get_free` MM_Page_GetFree, `add_free` MM_Page_AddFree. Walk has their loop over any range, and Inside
--   over a range in one table.
-- - Mm/Setup: MM_Init of src/mm.c. `regions` is the memory map in the order of its entries, `fill` makes
--   the stack of free pages that Mm/Page works on, and `init` is MM_Init without the words of the
--   heap. Reserved describes the memory map and what is in use without the loops. Stacked is
--   about the stack, Steps and Complete about the whole run.
-- - Exception: Exception_Page of src/arch/x86/exception.c, over Mm/Page. Exception/Dump: the dump of the
--   stack and the handlers that only write messages; its loop takes nine rounds.
-- - Text/Ctype: src/lib/ctype.c and the macros of include/lib/printf.h. Text/Strtol: src/lib/strtol.c.
--   Text/Number: `number` and `do_div` of src/lib/printf.c; its loop over the digits has fuel for 64
--   rounds, enough for 64 bits in a base of 2 or more. Text/Directive: the flags, width, precision,
--   qualifier and argument of one directive of `vsnprintf`. Text/Printf: `vsnprintf`, whose loop has a
--   round for each byte of the format and one more. Its arguments are the words on the stack.
--   Text/Scanf: src/lib/scanf.c, Text/Scanf/Fields its conversions to other things than integers and
--   Text/Scanf/Format the loop over the format, with a round for each byte of the format and one more.
-- - Mm/Heap: src/mm_allocator.c, with both chains of headers in the words of memory. `alloc` is MM_Alloc,
--   `free` MM_Free, `coalesce` MM_Coalesce, `expand` MM_Expand; the fuel counts the headers that a loop
--   passes. Chain has the lists of regions that the chains stand for, Split, Half and Carve an allocation
--   on them, Release and Insert a block that is freed.
-- - Strings: include/lib/string.h, its inline assembly as loops over a memory of bytes. Strings/Search
--   has the routines that look for a byte, Strings/Compare those that compare, with strstr,
--   Strings/Copy those that copy strings, and Strings/Block memcpy, memmove and memset. A loop up to a 0
--   in memory has fuel for each byte of the string and one more; one that counts has the count.
-- - Kernel: Kernel_ParseParameters of src/kernel-main.c. Its loop has a round for each byte and one
--   more, which is enough for every text. Kernel/Start: Kernel_Main, which starts the parts above in
--   turn; a part runs on its own piece of the state by `zoom`. It has MM_ZeroPageStruct of src/mm_pp.c
--   as well. Resource: the lock of src/resource.c.
-- - Syslog: Syslog_Entry of src/syslog.c, over Text/Printf and Arch/Video, with the buffer at an
--   address. Arch/Pit: src/arch/x86/8254.c.
-- - Tests: runs at concrete inputs.
--
-- Numbers of 8, 16 and 32 bits keep their wrap-around (`u8`, `u16`, `u32`). A C string is the list of
-- its bytes in front of the terminating 0.
--
-- A page fault outside of MM_Init does not interrupt a routine of the model: the first store to the heap
-- maps its first page, in which the node that Timer_Init takes lies as well.
--
-- Not modelled: the words inside a block of the heap that holds a node, __memset_gg of
-- include/lib/string.h, the messages of the other modules, and the assembly of src/boot.S. src/process.c
-- has no logic, and src/resource.c no more than its lock.
pub mod Base
pub mod Arch
pub mod Exception
pub mod Interrupt
pub mod Kernel
pub mod Lock
pub mod Mm
pub mod Resource
pub mod Strings
pub mod Syslog
pub mod Tests
pub mod Text
pub mod Timer
