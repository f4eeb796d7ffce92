-- ===== src/Osal.antt =====
-- The objects of the OS abstraction that threads block on: common/osal/src/posix_osal.c.
pub mod Wait
pub mod Queue
pub mod Semaphore
pub mod Tests
