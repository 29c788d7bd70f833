-- ===== src/Mm.antt =====
-- Memory management: src/mm_page.c (paging), src/mm.c (its set-up) and src/mm_allocator.c (the heap).
pub mod Page
pub mod Setup
pub mod Heap
