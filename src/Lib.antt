-- ===== src/Lib.antt =====
-- NewRpc: a library of coroutines with a scheduler, a timer wheel and remote procedure calls.
--
-- A remote call is written `co_await co_rpc<f>().on(peer).with_args(…)`. The arguments are
-- serialized behind a 32-byte package header, the network module sends the package to every
-- endpoint of the call and keeps the coroutine, by its id, in a map with a timer. The peer reads
-- the package, finds the function by its number, and gives a coroutine for the call to its
-- scheduler; when that is done, its last suspension sends the result back. The caller's network
-- module finds the coroutine by the id in the response, adds the result to the call, and gives the
-- coroutine to the scheduler when the finish condition is met, or when the timer runs out.
--
-- The files, and the code that they model:
--   * Base: the standard names, Boolean tests on numbers, `length`, `take`, `drop`, `All` over the
--     native numbers (Base/Tests, Base/Lists).
--   * Error: src/error_define/error_struct.h, the error numbers and messages.
--   * Serialization: src/mechanism/serialization.hpp and the `Serializer` of error_struct.h. Memory
--     has bytes, byte order, `memcpy` with its bounds, and the outcomes of a call; Types the types
--     that `Serializer` tells apart, as codes, with their values; Serialize and Deserialize the
--     functions `serialize`, `get_serialize_size` and `deserialize`, branch by branch; Encoding the
--     wire format, stated without a buffer. Bytes, Signs, Writing and Reading are lemmas; Output,
--     Input, RoundTrip, Safety and Typed the theorems; Yielding is lemmas of Typed. Members is
--     `for_each_tuple` of utils.h and `reflect_for_each` of src/mechanism/static_reflection.hpp.
--   * Net: src/coroutine_framework/net_module and src/coroutine_framework/async_action. EndPoint is
--     net_define.h and .cpp; Header is rpc_struct.h; Rpc is `RpcBase` of async_action.h and .ipp;
--     Mapper is rpc_register.h and rpc_mapper.h and .cpp; Receive the reading of a package
--     (net_service.cpp) and the writing of a response (task.cpp, task.ipp); Service is
--     `NetService`, of net_service.h and .cpp. Wire, Delivery and Response are about packages,
--     Received about `receive` of what the other side sends, Results about the results of a call,
--     Waiting, Liveness and Runs about the calls that wait. CoRpc is `co_rpc` of async_action.h,
--     and Answers about what it gives. Sending is `await_suspend` and `send_`; Buffer is
--     `NetBuffer`, Address the text of an `EndPoint`. Defined and Hostile are about `receive` on
--     any bytes.
--   * Coroutine: of src/coroutine_framework, queue.h, queue.ipp, task.h, task.ipp, local_var.h,
--     utils.h. Frame has the frames of coroutines, as a store from addresses to records; Queue the
--     intrusive queue; Task the handles, the chain of calls and the last suspension; Await the
--     values of coroutines; Scheduler is scheduler.h and .cpp and common_execute_module.h. Chain,
--     Fifo, Unlink, Fetching, FetchLoop, Fetched, Parting and Tail are about queues, CallChain
--     about calls, Lifetime about the reference count, Rounds, Commit, Fairness and Draining about
--     the scheduler, Ending about the last suspension of a root.
--   * Time: src/coroutine_framework/time_module/time_service.h and .cpp. Wheel is the wheel of
--     buckets, Loop the whole of `loop_`; Buckets and Mask are its arithmetic; Wakeup is about the
--     scan of a bucket, Registered and Sleep about `co_sleep` and Timely about both. Turn is the
--     wheel as a list of coroutines for each bucket; Scan and Running compare the loop with it;
--     Turning, Stopping and Sleeper are about its rounds, its end, and `co_sleep` with the rounds
--     that follow.
--   * Text: src/mechanism/stringification.hpp, src/literal.h, the formatters of error_struct.h and
--     src/log/logger.h. Number has the texts of numbers, Shape the types that `value_to_string`
--     tells apart, Buffer `FORMAT_TO`, ToString `value_to_string` and `kv_to_string`; Units is
--     literal.h, Errors the formatters, Log the arguments of `INFO_LOG`, Dump
--     `print_memory_content`. Render is the text of a value without a buffer. Writer relates
--     methods with texts; Truncation, Correct and Overrun are about a buffer that may be too small,
--     Printing and Object about a large one.
--   * Framework: `start`, `stop` and `wait` of scheduler.cpp, time_service.cpp and net_service.cpp,
--     with `listener`. Threads has the threads of the two services, Lifecycle those of
--     `CoroScheduler` and `GlobalInit`; Shutdown and Startup are about the ends of them.
--   * Demo: demo/example_rpc.cpp and demo/point.h (Functions), and a call of these functions from
--     another host, as the sequence of the steps of both hosts (RemoteCall). Widths and Steps are
--     lemmas, Asking and Serving are what the caller and the server do, Asked is both until the
--     answer or the timer comes, Answered is the theorem. Programs is the coroutines of main.cpp
--     and of the demos that call from afar.
--   * Examples: runs at concrete inputs.
--
-- How code is modelled. A pointer is a number, null is 0; memory is a list of bytes, or a function
-- from addresses to objects. Numbers are natural numbers, those of w bits with `% 2 ^ w` where the
-- source computes; a signed number is its bit pattern. A call returns a `Result`: a value, an
-- exception, undefined behaviour, or the end of the process by `assert` or `std::abort`, where
-- assertions are taken to be on. What the environment decides is an argument: the byte order of the
-- host, the readings of the clock, the chunks in which a socket delivers. A function of
-- `NetService` is one critical section; interleavings are sequences of steps (`Net.Runs.Reach`).
--
-- Fuel. The loop of `fetch_nodes` takes as many rounds as the queue counts frames, which is the
-- length of its chain; a chain that is longer is shown as undefined. `commit_all` and
-- `consume_ready` likewise pop as many frames as the queue counts. The digits of a number have fuel
-- for one digit more than the number itself, and the bits of a double (`lost_bits`, `kept_bits`)
-- for 64 steps, more than the 11 and the 53 that a uint64_t and a quotient from 1 on can need.
-- `worker_rounds` has the number of rounds of a worker as its argument. All other loops recurse on
-- a list, on a count or on the number of bytes that are still to be read.
--
-- A thread is not made, in its loop or joined; joining one whose loop does not end is a call that
-- does not return. The calls on a socket are a list, and how they end is an argument. A lock or a
-- flag that is waited for is the list of what is read.
--
-- Not modelled: boost.asio and spdlog themselves, the condition variables, which only delay, and
-- `RandomGenerator`, whose numbers are arguments; the macros of
-- src/mechanism/static_reflection.hpp, whose effect is the list of a type's members; allocation
-- failure; an exception of `remote_endpoint` in `receive`, which is before its `try`, when nothing
-- has been read; the main functions of the demos, the demos that only sleep, and the unit tests.
-- Types with a `serialize` method of their own are left out, as there are none.
mod Base
pub mod Error
pub mod Serialization
pub mod Net
pub mod Coroutine
pub mod Time
pub mod Text
pub mod Framework
pub mod Demo
mod Examples
