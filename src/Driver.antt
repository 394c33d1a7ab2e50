-- ===== src/Driver.antt =====
-- The kernel modules of packages/driver.
pub mod Kernel
pub mod HelloClass
pub mod CharClass
pub mod FirstCdev
pub mod HelloChar
pub mod CharMisc
pub mod UeventDemo
pub mod Timer
pub mod Hello
pub mod Modules
pub mod IoctlTest
mod Tests
