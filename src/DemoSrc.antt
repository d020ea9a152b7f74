-- ===== src/DemoSrc.antt =====
-- The demo source of examples/demo_src/src/main.rs: it reads commands, one on each line, and calls a
-- `SacnSource`. It is a program that does not send but in its calls, and that prints its errors.
pub mod Acceptance
pub mod Commands
pub mod Dispatch
pub mod Ending
pub mod Handled
pub mod Input
pub mod Lines
pub mod Loops
pub mod Presets
pub mod Program
pub mod Total
