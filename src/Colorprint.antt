-- ===== src/Colorprint.antt =====
-- packages/colorprint: a progress bar and a print that clears its line.
pub mod Codes
pub mod Terminal
pub mod Demo
pub mod Memory
pub mod Bar
pub mod Print
mod Tests
