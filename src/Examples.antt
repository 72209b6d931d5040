-- ===== src/Examples.antt =====
-- Runs at concrete inputs: the tests of the model, and one example of each theorem.
mod Codec
mod Packages
mod Calls
mod Coroutines
mod Scheduling
mod Texts
mod Threads
mod Remote
mod Turns
mod Endings
