-- ===== src/Buffers.antt =====
-- The byte buffers of the core: core/src/databuffer.ts.
pub mod DataBuffer
