-- ===== src/Coproc.antt =====
-- The coprocessor core: coproc-core/src/coproc.c, coproc_wire.c, coproc_link.c, coproc_frame.c,
-- coproc_ota.c, coproc_bluetooth.c and the services, over the state of coproc-core/include/wlh/coproc.h.
pub mod Types
pub mod Effects
pub mod Send
pub mod Ota
pub mod Ethernet
pub mod Link
pub mod Services
pub mod Bluetooth
pub mod Samples
mod Tests
