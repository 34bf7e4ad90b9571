-- ===== src/Examples/Threads.antt =====
-- mqtt_thread and main before a broker that is slow to answer.
use haier_controller.Prelude.{pos, negsuc, ◌≡◌, refl}
use haier_controller.App.Mqtt.Threads.{
  connects, inputs, inits, starts, reports, InitMove, ThreadMove, LoopMove, Threads, thread_moves,
  main_moves, Runs, here, then_, Reachable,
}
use haier_controller.App.Mqtt.Threads.Wiped.{IsStale}
use haier_controller.App.Mqtt.Threads.Overtakes.{waiting, waiting-IsStale}

-- main found no broker at the start; the thread opened a connection, and waits for the consent.
thread_waits : Reachable (waiting 2 48 2)
thread_waits =
    then_
      (then_
        (then_
          (then_
            (then_
              (then_
                (then_ (then_ here (main_moves (LoopMove.booting InitMove.wipes_client)))
                  (main_moves (LoopMove.booting (InitMove.fails (negsuc 115) refl))))
                (main_moves LoopMove.booted))
              (thread_moves (ThreadMove.reconnects refl)))
            (thread_moves (ThreadMove.inside InitMove.wipes_client)))
          (thread_moves (ThreadMove.inside (InitMove.opens (pos 0) refl))))
        (thread_moves (ThreadMove.inside (InitMove.reads_on refl))))
      (thread_moves (ThreadMove.inside InitMove.returns))

waiting-IsStale_example :
    (t : Threads) × Runs (waiting 2 48 2) t
    × (t.thread ≡ starts (inputs 2 48))
    × (t.main ≡ reports (inits (connects t.shared.wipes)))
    × IsStale t 2
waiting-IsStale_example = waiting-IsStale 2 48 2 thread_waits
