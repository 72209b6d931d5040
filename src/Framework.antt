-- ===== src/Framework.antt =====
-- The life of the threads: scheduler.h and scheduler.cpp, time_service.cpp, net_service.cpp.
pub mod Threads
pub mod Lifecycle
pub mod Shutdown
pub mod Startup
