-- ===== src/Opack.antt =====
-- core/encoding/opack.ts: the binary object format of the Companion protocol.
pub mod Value
pub mod Pack
pub mod Pooled
pub mod Texts
pub mod Pooling
pub mod Refines
pub mod Unpack
pub mod Atoms
pub mod Objects
pub mod Groups
pub mod Plain
pub mod Elements
pub mod Entries
pub mod RoundTrip
pub mod Divergence
