-- ===== src/Co.antt =====
-- lw/co: promises and their futures, the event loop, and the coroutines that are written with them.
pub mod Future
pub mod Event
pub mod Epoll
pub mod Scheduler
pub mod Task
pub mod Generator
