-- ===== src/DemoRcv.antt =====
-- The demo receiver of examples/demo_rcv/src/main.rs: it reads commands, one on each line, calls a
-- `SacnReceiver`, and prints what it gives or writes it to a file.
pub mod Commands
pub mod Dispatch
pub mod Printing
pub mod Program
pub mod Sorted
