-- ===== src/Tests.antt =====
-- Concrete runs of the definitions, and the theorems at concrete inputs.
mod Tlv
mod Stream
mod Opack
mod Media
mod Encryption
mod DataStream
mod Companion
mod Daap
mod Mrp
mod Recovery
