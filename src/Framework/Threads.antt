-- ===== src/Framework/Threads.antt =====
-- The threads of `TimeService` and of `NetService`: `start`, `stop` and `wait`, and `listener`.
use new_rpc.Base.{ℕ, Bool, true, false, List, [], ◌∷◌, Option, none, some, if◌then◌else◌}

-- A std::jthread: not made yet, in its loop, or joined.
pub data Thread : Type 0 where
  not_started running joined : Thread

-- `if (thread.joinable()) thread.join()`: a thread in its loop is waited for, so the call returns only
-- if the loop ends.
unfoldable pub join : (ends : Bool) → Thread → Option Thread
join ends not_started = some not_started
join ends joined = some joined
join true running = some joined
join false running = none

pub record TimeThread : Type 0 where
  pub stop_flag : Bool
  pub loop_thread : Thread

unfoldable pub time_start : TimeThread → TimeThread
time_start t = record { stop_flag = false; loop_thread = running }

-- The same if the thread cannot be made: the exception comes after the flag is cleared.
unfoldable pub time_start_failed : TimeThread → TimeThread
time_start_failed t = record t { stop_flag = false }

unfoldable pub time_stop : TimeThread → TimeThread
time_stop t = record t { stop_flag = true }

-- `loop_` ends after a round in which it finds the flag set.
unfoldable pub time_wait : TimeThread → Option TimeThread
unfolding join
time_wait t = elim (join t.stop_flag t.loop_thread) [
  | none ↦ none
  | some thread ↦ some (record t { loop_thread = thread })
]

-- What `async_accept` gives, one after the other; it throws when the io context is in trouble.
pub data Accept : Type 0 where
  accepted : (socket : ℕ) → Accept
  accept_error : Accept

-- The sockets for which `listener` spawns a `receive`, up to the first error.
unfoldable pub received_sockets : List Accept → List ℕ
received_sockets [] = []
received_sockets (accept_error ∷ rest) = []
received_sockets (accepted socket ∷ rest) = socket ∷ received_sockets rest

-- `listener`: whether it sets the promise, and the sockets it hands on. The acceptor's constructor
-- throws if the port cannot be opened, before the promise is set.
unfoldable pub listener : (port_opens : Bool) → List Accept → Bool × List ℕ
unfolding received_sockets
listener true accepts = (true, received_sockets accepts)
listener false accepts = (false, [])

-- `io_stopped` is the io context's.
pub record NetThread : Type 0 where
  pub stop_flag : Bool
  pub io_stopped : Bool
  pub thread : Thread

-- `start` returns only when the listener has set the promise.
unfoldable pub net_start : (port_opens : Bool) → NetThread → Option NetThread
unfolding listener
net_start port_opens n =
    if (listener port_opens []).0
    then some (record n { stop_flag = false; thread = running })
    else none

unfoldable pub net_start_failed : NetThread → NetThread
net_start_failed n = record n { stop_flag = false }

unfoldable pub net_stop : NetThread → NetThread
net_stop n = record n { io_stopped = true }

unfoldable pub net_wait : NetThread → Option NetThread
unfolding join
net_wait n = elim (join n.io_stopped n.thread) [
  | none ↦ none
  | some thread ↦ some (record n { thread = thread })
]
