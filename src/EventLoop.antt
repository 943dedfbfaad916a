-- ===== src/EventLoop.antt =====
-- event_loop.cc: the registry of event loops, one for each thread at most, and a loop. In the
-- registry, std::unordered_map is a map from thread ids; a std::shared_ptr<EventLoop> is a value of a
-- type L.
pub mod Registry
pub mod Loop
pub mod Ring
pub mod Threads
mod Tests
