-- ===== src/Examples/Client.antt =====
-- A connection that the broker accepts at the second call of mqtt_input.
use haier_controller.Prelude.{
  ℕ, zero, suc, ◌-◌, ◌<◌, ◌≡◌, refl, pos, negsuc, true, false, leb, List, [], ◌∷◌, some, arith,
}
use haier_controller.Floats.Exact.{exact, half}
use haier_controller.App.Status.{StatusPacket, get_status}
use haier_controller.App.Mqtt.Client.{
  connects, subscribes, answered, inputs, sleeps, publishes, Client, note, Event, suback, connack,
  mqtt_init, World, fine, Job, round, status, do_jobs, do_job, thread_round, reconnect, connect,
  await, mqtt_input, handle_events, subscribe_to_topic, handler, publish_status, publish_msg,
  unconnected,
}
use haier_controller.App.Mqtt.Client.Log.{IsLogged, do_jobs-IsLogged}
use haier_controller.App.Mqtt.Client.Init.{accepts, IsIdle, mqtt_init-outcome}
use haier_controller.App.Mqtt.Encode.{Zcbor, encode}
use haier_controller.App.Mqtt.Encode.Room.{Sizes}
use haier_controller.App.Main.{main_round, main_round-publishes}
use haier_controller.Examples.Data.{regs, regs-IsRegs}
use haier_controller.Examples.Readings.{locals}

abbrev pub second_call : ℕ → List Event
second_call zero = suback ∷ []
second_call (suc zero) = connack (pos 0) (negsuc 127) ∷ []
second_call (suc (suc n)) = []

pub before_second : (j : ℕ) → j < 1 → IsIdle (second_call j)
before_second zero h = tt
before_second (suc j) h = absurd (omega arith)

mqtt_init-outcome_example :
    mqtt_init some (pos 0) second_call unconnected
    ≡ some (record {
      connected = true;
      log =
          sleeps 100 ∷ subscribes ∷ answered (pos 0) ∷ inputs ∷ sleeps 100 ∷ inputs ∷ connects ∷ [];
    })
mqtt_init-outcome_example =
    mqtt_init-outcome some second_call [] (accepts 1 (negsuc 127) (omega arith) before_second refl)

-- An encoder that counts its bytes, and writes nothing of use.
abbrev counting : Zcbor exact.Float
counting = record {
  State = ℕ;
  new = λ n. n;
  list_start = λ n s. (leb 1 s, s - 1);
  float32_put = λ x s. (leb 5 s, s - 5);
  uint32_put = λ v s. (leb 1 s, s - 1);
  list_end = λ n s. (leb 1 s, s - 1);
  written = λ s. s ∷ [];
}

counting-Sizes : Sizes counting
counting-Sizes = record {
  room = λ s. s;
  new_room = λ n. refl;
  start_room = λ n s h k. ground arith;
  float_room = λ x s k. ground arith;
  number_room = λ v s h k. ground arith;
  end_room = λ n s h k. ground arith;
}

abbrev online : Client
online = record { connected = true; log = subscribes ∷ [] }

main_round-publishes_example :
    (packet : StatusPacket exact.Float) × (payload : List ℕ) × (get_status exact regs
        (half 37)
        locals
      ≡ some packet)
    × (encode counting packet ≡ some payload)
    × (main_round exact counting some regs (half 37) locals (pos 0) online
        ≡ some (note (publishes payload) online))
main_round-publishes_example =
    main_round-publishes exact counting some counting-Sizes regs (half 37) locals (pos 0) online
      regs-IsRegs refl

abbrev worlds : ℕ → World
worlds d = record { err = pos 0; events = second_call }

-- A round that connects, and a status.
abbrev jobs : List Job
jobs =
    round (record {
      worlds = worlds;
      res = pos 0;
      pollin = false;
      events = [];
      input = fine;
      live = fine;
    })
    ∷ status worlds (some (7 ∷ [])) (pos 0)
    ∷ []

abbrev after_jobs : Client
after_jobs = record {
  connected = true;
  log =
      publishes (7 ∷ [])
      ∷ sleeps 5000
      ∷ sleeps 100
      ∷ subscribes
      ∷ answered (pos 0)
      ∷ inputs
      ∷ sleeps 100
      ∷ inputs
      ∷ connects
      ∷ [];
}

jobs_test : do_jobs 1 jobs unconnected ≡ some after_jobs
unfolding subscribe_to_topic do_jobs do_job thread_round reconnect connect mqtt_init await
    mqtt_input handle_events handler publish_status publish_msg
jobs_test = refl

do_jobs-IsLogged_example : IsLogged after_jobs
do_jobs-IsLogged_example = do_jobs-IsLogged 1 jobs after_jobs jobs_test
