-- ===== src/Demo.antt =====
-- The functions of demo/ that are called from afar, and a remote call of them.
pub mod Functions
pub mod RemoteCall
pub mod Widths
pub mod Steps
pub mod Asking
pub mod Serving
pub mod Asked
pub mod Answered
pub mod Programs
