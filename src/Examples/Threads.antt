-- ===== src/Examples/Threads.antt =====
-- Starting the threads, on a machine with too few of them.
use new_rpc.Base.{◌≡◌, refl, true, false, [], ◌∷◌}
use new_rpc.Framework.Threads.{joined}
use new_rpc.Framework.Lifecycle.{make_framework, Machine, failed, hangs, start}
use new_rpc.Framework.Startup.{Fits, start-Fits}

-- Two workers can be made where four are wanted.
abbrev small_machine : Machine
small_machine = record {
  makes_time_thread = true;
  makes_net_thread = true;
  port_opens = true;
  makes_workers = 2;
}

start_test :
    start small_machine (make_framework 4)
    ≡ failed (record (make_framework 4) {
      time_module = record { stop_flag = true; loop_thread = joined };
      net_module = record { stop_flag = false; io_stopped = true; thread = joined };
      workers = joined ∷ joined ∷ [];
    })
unfolding start make_framework
start_test = refl

start_busy_port : start (record small_machine { port_opens = false }) (make_framework 4) ≡ hangs
unfolding start make_framework
start_busy_port = refl

start-Fits_example : Fits small_machine 4 (start small_machine (make_framework 4))
start-Fits_example = start-Fits small_machine 4
