-- ===== src/Time.antt =====
-- coroutine_framework/time_module: the timer wheel that wakes sleeping coroutines.
pub mod Wheel
pub mod Buckets
pub mod Mask
pub mod Loop
pub mod Wakeup
pub mod Registered
pub mod Sleep
pub mod Timely
pub mod Turn
pub mod Scan
pub mod Running
pub mod Turning
pub mod Sleeper
pub mod Stopping
