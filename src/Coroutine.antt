-- ===== src/Coroutine.antt =====
-- coroutine_framework: the frames of coroutines, their queues, their call chains and their lives.
pub mod Frame
pub mod Queue
pub mod Chain
pub mod Fifo
pub mod Task
pub mod CallChain
pub mod Lifetime
pub mod Scheduler
pub mod Rounds
pub mod Unlink
pub mod Fetching
pub mod FetchLoop
pub mod Fetched
pub mod Tail
pub mod Commit
pub mod Ending
pub mod Fairness
pub mod Draining
pub mod Await
pub mod Parting
