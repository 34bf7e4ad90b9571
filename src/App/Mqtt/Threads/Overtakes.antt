-- ===== src/App/Mqtt/Threads/Overtakes.antt =====
-- The main loop begins mqtt_init while mqtt_thread is in it.
use haier_controller.Prelude.{ℕ, suc, ◌≡◌, refl, false, arith}
use haier_controller.App.Mqtt.Threads.{
  connects, inputs, pauses, inits, starts, idles, reports, InitMove, PublishMove, ThreadMove,
  LoopMove, Threads, thread_moves, main_moves, Runs, here, then_, Reachable,
}
use haier_controller.App.Mqtt.Threads.Wiped.{IsStale, Reachable-wipes}

-- mqtt_thread sleeps in mqtt_init, with rounds to go and no connection; main is out of publish_status.
abbrev pub waiting : (n left wipes : ℕ) → Threads
waiting n left wipes = record {
  shared = record { connected = false; wipes = wipes };
  thread = starts (pauses n (suc left));
  main = idles;
}

-- From every state that can be come to in which mqtt_thread sleeps in the loop of mqtt_init with
-- rounds to go, without a connection, and main is out of publish_status, there is a run after
-- which main is in mqtt_connect, and mqtt_thread in mqtt_input on a client that main has wiped.
pub waiting-IsStale :
    (n left wipes : ℕ)
    → Reachable (waiting n left wipes)
    → (t : Threads) × Runs (waiting n left wipes) t
      × (t.thread ≡ starts (inputs n left))
      × (t.main ≡ reports (inits (connects t.shared.wipes)))
      × IsStale t n
waiting-IsStale n left wipes r = (
  _,
  then_
      (then_
        (then_
          (then_ (then_ here (main_moves LoopMove.reports_on))
            (main_moves (LoopMove.inside (PublishMove.misses refl))))
          (main_moves (LoopMove.inside (PublishMove.inside InitMove.wipes_client))))
        (thread_moves (ThreadMove.inside InitMove.wakes)))
      (thread_moves (ThreadMove.inside (InitMove.reads_on refl))),
  refl,
  refl,
  omega (arith, Reachable-wipes r refl),
)
