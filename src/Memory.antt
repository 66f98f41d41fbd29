-- ===== src/Memory.antt =====
-- lw/memory: the queue of the scheduler, and the byte buffers of the readers.
pub mod Store
pub mod CircularQueue
pub mod Buffer
