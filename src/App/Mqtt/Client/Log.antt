-- ===== src/App/Mqtt/Client/Log.antt =====
-- What the log of calls says of the connection.
use haier_controller.Prelude.{
  ℕ, zero, suc, not, ◌&&◌, ◌||◌, ℤ, pos, if◌then◌else◌, ◌≡◌, refl, Bool, true, false, List, [], ◌∷◌,
  Option, none, some, arith, inl, inr, Option-cases,
}
use haier_controller.Cmd.Types.{◌>>=◌}
use haier_controller.App.Mqtt.{on_publish}
use haier_controller.Prelude.Int.{ltb_ℤ, is_zero}
use haier_controller.App.Mqtt.Client.{
  Action, connects, subscribes, answered, inputs, aborts, drops, publishes, handles, sleeps, Client,
  note, Event, publish, connack, suback, disconnect, other, publish_msg, publish_status,
  answer_command, subscribe_to_topic, handler, handle_events, mqtt_input, await, mqtt_init, World,
  connect, Round, is_positive, input_fails, give_up, Outcome, fine, would_block, failed, keep_alive,
  reconnect, take_input, thread_round, Job, round, status, do_job, do_jobs, unconnected,
}

-- The broker accepted a connection, by the result 0, and nothing ended it since.
abbrev pub live : List Action → Bool
live [] = false
live (answered result ∷ log) = is_zero result || live log
live (drops ∷ log) = false
live (aborts ∷ log) = false
live (_ ∷ log) = live log

-- The broker just accepted a connection.
abbrev pub accepted : List Action → Bool
accepted (answered result ∷ log) = is_zero result
accepted _ = false

-- Each payload was published while the connection was live, and the commands were subscribed to
-- right after each acceptance and at no other time.
abbrev pub Sound : List Action → Type 0
Sound [] = Unit
Sound (publishes p ∷ log) = (live log ≡ true) × (accepted log ≡ false) × Sound log
Sound (subscribes ∷ log) = (accepted log ≡ true) × Sound log
Sound (_ ∷ log) = (accepted log ≡ false) × Sound log

pub record IsLogged (c : Client) : Type 0 where
  pub flag : c.connected ≡ live c.log
  pub asked : accepted c.log ≡ false
  pub sound : Sound c.log

abbrev pub Keeps : Option Client → Type 0
Keeps none = Unit
Keeps (some c) = IsLogged c

Keeps-bind :
    (o : Option Client) (f : Client → Option Client)
    → Keeps o
    → ((c : Client) → IsLogged c → Keeps (f c))
    → Keeps (o >>= f)
Keeps-bind none f k h = tt
Keeps-bind (some c) f k h = h c k

module _ (again : Client → Option Client) (kept : (c : Client) → IsLogged c → Keeps (again c)) where
  publish_status-Keeps :
      (p : Option (List ℕ)) (sent : ℤ) (c : Client)
      → IsLogged c
      → Keeps (publish_status again p sent c)
  unfolding publish_status publish_msg
  publish_status-Keeps none sent c i = i
  publish_status-Keeps (some p) sent c i = ground (arith, i, kept c i)

  handler-Keeps : (e : Event) (c : Client) → IsLogged c → Keeps (handler again e c)
  unfolding handler answer_command subscribe_to_topic
  handler-Keeps (publish m) c i = elim (Option-cases (on_publish m.len m.answer m.buf)) [
    | inl e ↦ rw e tt
    | inr (none, e) ↦ rw e i
    | inr (some call, e) ↦ rw e (
        publish_status-Keeps m.payload m.sent (note (sleeps 1000) (note (handles call) c))
          (record { flag = i.flag; asked = refl; sound = (refl, (i.asked, i.sound)) }))
  ]
  handler-Keeps (connack r sub) c i = ground (arith, i)
  handler-Keeps suback c i = i
  handler-Keeps disconnect c i = record { flag = refl; asked = refl; sound = (i.asked, i.sound) }
  handler-Keeps other c i = i

  handle_events-Keeps :
      (es : List Event) (c : Client) → IsLogged c → Keeps (handle_events again es c)
  unfolding handle_events
  handle_events-Keeps [] c i = i
  handle_events-Keeps (e ∷ es) c i =
      Keeps-bind (handler again e c) (handle_events again es) (handler-Keeps e c i)
        (λ c' i'. handle_events-Keeps es c' i')

  mqtt_input-Keeps : (es : List Event) (c : Client) → IsLogged c → Keeps (mqtt_input again es c)
  unfolding mqtt_input
  mqtt_input-Keeps es c i =
      handle_events-Keeps es (note inputs c)
        (record { flag = i.flag; asked = refl; sound = (i.asked, i.sound) })

  await-Keeps :
      (left : ℕ) (events : ℕ → List Event) (c : Client)
      → IsLogged c
      → Keeps (await again left events c)
  unfolding await
  await-Keeps zero events c i = i
  await-Keeps (suc left) events c i =
      elim c.connected
        as (λ b. Keeps (elim b [
          | true ↦ some c
          | false ↦ mqtt_input again (events 0) c >>= λ c'.
              await again left (λ i. events (suc i)) (note (sleeps 100) c')
        ])) [
          | true ↦ i
          | false ↦
              Keeps-bind (mqtt_input again (events 0) c) _ (mqtt_input-Keeps (events 0) c i)
                (λ c' i'.
                  await-Keeps left (λ i. events (suc i)) (note (sleeps 100) c')
                    (record { flag = i'.flag; asked = refl; sound = (i'.asked, i'.sound) }))
        ]

  mqtt_init-Keeps :
      (err : ℤ) (events : ℕ → List Event) (c : Client)
      → IsLogged c
      → Keeps (mqtt_init again err events c)
  unfolding mqtt_init
  mqtt_init-Keeps err events c i =
      elim (is_zero err)
        as (λ b.
          Keeps (if b then await again 50 events (note connects c) else some (note connects c))) [
            | true ↦
                await-Keeps 50 events (note connects c)
                  (record { flag = i.flag; asked = refl; sound = (i.asked, i.sound) })
            | false ↦ record { flag = i.flag; asked = refl; sound = (i.asked, i.sound) }
          ]

connect-Keeps :
    (worlds : ℕ → World) (depth : ℕ) (c : Client) → IsLogged c → Keeps (connect worlds depth c)
unfolding connect
connect-Keeps worlds zero c i = tt
connect-Keeps worlds (suc depth) c i =
    mqtt_init-Keeps (connect worlds depth) (connect-Keeps worlds depth) (worlds depth).err
      (worlds depth).events c i

keep_alive-IsLogged : (o : Outcome) (c : Client) → IsLogged c → IsLogged (keep_alive o c)
unfolding keep_alive
keep_alive-IsLogged fine c i = record { flag = i.flag; asked = refl; sound = (i.asked, i.sound) }
keep_alive-IsLogged Outcome.again c i = record {
  flag = i.flag;
  asked = refl;
  sound = (i.asked, i.sound);
}
keep_alive-IsLogged would_block c i = record {
  flag = i.flag;
  asked = refl;
  sound = (i.asked, i.sound);
}
keep_alive-IsLogged failed c i = record {
  flag = refl;
  asked = refl;
  sound = (refl, (i.asked, i.sound));
}

give_up-IsLogged : (c : Client) → IsLogged c → IsLogged (give_up c)
give_up-IsLogged c i = record { flag = refl; asked = refl; sound = (i.asked, i.sound) }

reconnect-Keeps : (depth : ℕ) (r : Round) (c : Client) → IsLogged c → Keeps (reconnect depth r c)
unfolding reconnect
reconnect-Keeps depth r c i =
    Keeps-bind (connect r.worlds depth c) _ (connect-Keeps r.worlds depth c i)
      (λ c' i'. record { flag = i'.flag; asked = refl; sound = (i'.asked, i'.sound) })

take_input-Keeps : (depth : ℕ) (r : Round) (c : Client) → IsLogged c → Keeps (take_input depth r c)
unfolding take_input
take_input-Keeps depth r c i =
    Keeps-bind (mqtt_input (connect r.worlds depth) r.events c) _
      (mqtt_input-Keeps (connect r.worlds depth) (connect-Keeps r.worlds depth) r.events c i)
      (λ c' i'. ended (input_fails r.input) c' i')
  where
    ended :
        (b : Bool) (c' : Client)
        → IsLogged c'
        → IsLogged (if b then give_up c' else keep_alive r.live c')
    ended true c' i' = give_up-IsLogged c' i'
    ended false c' i' = keep_alive-IsLogged r.live c' i'

thread_round-Keeps :
    (depth : ℕ) (r : Round) (c : Client) → IsLogged c → Keeps (thread_round depth r c)
unfolding thread_round
thread_round-Keeps depth r c i =
    pick (not c.connected) (ltb_ℤ r.res (pos 0)) (is_positive r.res && r.pollin)
  where
    pick :
        (a b d : Bool)
        → Keeps (
            if a
            then reconnect depth r c
            else (if b
                then some (give_up c)
                else (if d then take_input depth r c else some (keep_alive r.live c))))
    pick true b d = reconnect-Keeps depth r c i
    pick false true d = give_up-IsLogged c i
    pick false false true = take_input-Keeps depth r c i
    pick false false false = keep_alive-IsLogged r.live c i

do_job-Keeps : (depth : ℕ) (j : Job) (c : Client) → IsLogged c → Keeps (do_job depth j c)
unfolding do_job
do_job-Keeps depth (round r) c i = thread_round-Keeps depth r c i
do_job-Keeps depth (status worlds payload sent) c i =
    publish_status-Keeps (connect worlds depth) (connect-Keeps worlds depth) payload sent c i

do_jobs-Keeps : (depth : ℕ) (js : List Job) (c : Client) → IsLogged c → Keeps (do_jobs depth js c)
unfolding do_jobs
do_jobs-Keeps depth [] c i = i
do_jobs-Keeps depth (j ∷ js) c i =
    Keeps-bind (do_job depth j c) (do_jobs depth js) (do_job-Keeps depth j c i)
      (λ c' i'. do_jobs-Keeps depth js c' i')

-- After any rounds of mqtt_thread and publications of the status, from the start and with any
-- answers of the MQTT library, that come to an end: `connected` is set exactly if the broker
-- answered a connection with the result 0, and no disconnection or abort came since; each payload
-- was published while this was so; and mqtt_subscribe was called right after each such answer and
-- at no other time.
pub do_jobs-IsLogged :
    (depth : ℕ) (js : List Job) (c : Client) → do_jobs depth js unconnected ≡ some c → IsLogged c
do_jobs-IsLogged depth js c e =
    rw e at (do_jobs-Keeps depth js unconnected (record { flag = refl; asked = refl; sound = tt }))
