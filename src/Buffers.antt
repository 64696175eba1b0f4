-- ===== src/Buffers.antt =====
-- core/encoding/buffer-utils.ts: the stream buffer, the reader and the writer.
pub mod Reader
pub mod Pool
pub mod Writer
pub mod Stream
