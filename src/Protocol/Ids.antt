-- ===== src/Protocol/Ids.antt =====
-- The numbers of protocol/include/wlh/protocol/ids.h and the sizes of wire.h and raw_record.h.
pub mod Channel
pub mod Service
pub mod Method
pub mod Status
use wl_hosted_core.Prelude.{ℕ, ◌+◌}

abbrev pub frame_magic : ℕ
frame_magic = 0x4c57

abbrev pub protocol_major : ℕ
protocol_major = 1

abbrev pub frame_header_size : ℕ
frame_header_size = 24

abbrev pub rpc_envelope_size : ℕ
rpc_envelope_size = 16

abbrev pub frame_max_payload : ℕ
frame_max_payload = 65535

abbrev pub frame_max_size : ℕ
frame_max_size = frame_header_size + frame_max_payload

abbrev pub raw_record_header_size : ℕ
raw_record_header_size = 8
