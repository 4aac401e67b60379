-- ===== src/Mm.antt =====
-- kernel/mm.c and include/mm.h: physical frames, the kernel heap and paging.
pub mod Frames
pub mod Heap
pub mod Paging
