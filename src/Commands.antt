-- ===== src/Commands.antt =====
-- The `main` functions of the demos that choose a function by their first argument.
pub mod Dispatch
pub mod Programs
