-- ===== src/Protocol.antt =====
-- The wire protocol: protocol/src/wire.c and protocol/src/raw_record.c, a module for each format.
pub mod Result
pub mod Ids
pub mod Endian
pub mod Checksum
pub mod Frame
pub mod Rpc
pub mod RawRecord
mod Tests
