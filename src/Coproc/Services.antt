-- ===== src/Coproc/Services.antt =====
-- The small services of the coprocessor, which call a backend and answer at once:
-- coproc-core/src/coproc_adc.c, coproc_io.c and coproc_kv.c, with the error answers of coproc_wire.c.
pub mod Errors
pub mod Peripherals
pub mod Answers
pub mod Utf8
pub mod Kv
mod Tests
