-- ===== src/Host.antt =====
-- The host core: host-core/src/host.c, host_rpc.c, host_wire.c, host_link.c, host_frame.c and the
-- receive halves of host_bluetooth.c and host_ota.c, over the state of host-core/include/wlh/host.h.
pub mod Types
pub mod Effects
pub mod Send
pub mod Pending
pub mod Link
pub mod Deadlines
pub mod Ethernet
pub mod Streams
pub mod OtaStream
pub mod Frame
pub mod Samples
mod Tests
