-- ===== src/App/Mqtt/Client.antt =====
-- The connection of fw/src/mqtt.c: the flag `connected`, the events of the MQTT library, and the
-- calls of the library in order. What the library answers is an argument.
pub mod Log
pub mod Init
use haier_controller.Prelude.{
  ℕ, zero, suc, ◌+◌, ℤ, pos, negsuc, Bool, true, false, not, ◌&&◌, ◌||◌, if◌then◌else◌, List, [],
  ◌∷◌, Option, none, some,
}
use haier_controller.Prelude.Int.{ltb_ℤ, is_zero}
use haier_controller.Cmd.Types.{Code, of_library, ◌>>=◌}
use haier_controller.App.Mqtt.{Call, on_publish}

-- A call of the library: mqtt_connect, mqtt_subscribe to heatpump/cmd, mqtt_input, mqtt_live,
-- mqtt_abort, and mqtt_publish of a payload on heatpump/status; a command's handler; an event that
-- ends the connection; the broker's answer to a connection, with its result; a sleep in milliseconds.
pub data Action : Type 0 where
  connects subscribes inputs lives aborts drops : Action
  publishes : List ℕ → Action
  answered : ℤ → Action
  handles : Call → Action
  sleeps : ℕ → Action

-- The last action stands first.
pub record Client : Type 0 where
  pub connected : Bool
  pub log : List Action

abbrev pub note : Action → Client → Client
note a c = record c { log = a ∷ c.log }

abbrev pub set_connected : Bool → Client → Client
set_connected b c = record c { connected = b }

-- A message on the topic of commands: its length, what mqtt_read_publish_payload answered and left
-- in `rx_buf`; and for the status that answers it the payload, unless its encoding failed, and what
-- mqtt_publish returned.
pub record Message : Type 0 where
  pub len : ℕ
  pub answer : ℤ
  pub buf : List ℕ
  pub payload : Option (List ℕ)
  pub sent : ℤ

-- `sub` is what mqtt_subscribe answers, if it is called.
pub data Event : Type 0 where
  publish : Message → Event
  connack : (result sub : ℤ) → Event
  suback disconnect other : Event

-- subscribe_to_topic, which hands on what mqtt_subscribe answered.
unfoldable pub subscribe_to_topic : ℤ → Client → ℤ × Client
subscribe_to_topic err c = (err, note subscribes c)

-- `none` is behaviour that C leaves undefined. `again` is the mqtt_init that a call without a
-- connection comes to.
module _ (again : Client → Option Client) where
  unfoldable pub publish_msg : List ℕ → ℤ → Client → Option (Code × Client)
  publish_msg payload sent c =
      if c.connected
      then some (of_library sent, note (publishes payload) c)
      else do c' ← again c; some (Code.enotsock, c')

  unfoldable pub publish_status : Option (List ℕ) → ℤ → Client → Option Client
  publish_status none sent c = some c
  publish_status (some payload) sent c = do (err, c') ← publish_msg payload sent c; some c'

  -- The end of dispatch_cmd, if a command was found.
  pub answer_command : Message → Client → Option Call → Option Client
  answer_command m c none = some c
  answer_command m c (some call) =
      publish_status m.payload m.sent (note (sleeps 1000) (note (handles call) c))

  unfoldable pub handler : Event → Client → Option Client
  handler (publish m) c = do found ← on_publish m.len m.answer m.buf; answer_command m c found
  handler (connack result sub) c =
      let seen = note (answered result) c in
      some (if is_zero result then (subscribe_to_topic sub (set_connected true seen)).1 else seen)
  handler suback c = some c
  handler disconnect c = some (note drops (set_connected false c))
  handler other c = some c

  unfoldable pub handle_events : List Event → Client → Option Client
  handle_events [] c = some c
  handle_events (e ∷ es) c = do c' ← handler e c; handle_events es c'

  -- mqtt_input, with the events that it hands to `handler`.
  unfoldable pub mqtt_input : List Event → Client → Option Client
  mqtt_input events c = handle_events events (note inputs c)

  -- The loop of mqtt_init, with `left` rounds to go: `events i` come with the i-th call from here.
  unfoldable pub await : ℕ → (ℕ → List Event) → Client → Option Client
  await zero events c = some c
  await (suc left) events c = elim c.connected [
    | true ↦ some c
    | false ↦ do
      c' ← mqtt_input (events 0) c
      await left (λ i. events (suc i)) (note (sleeps 100) c')
  ]

  -- mqtt_init, with what mqtt_connect returned.
  unfoldable pub mqtt_init : ℤ → (ℕ → List Event) → Client → Option Client
  mqtt_init err events c =
      if is_zero err then await 50 events (note connects c) else some (note connects c)

-- What one call of mqtt_init meets.
pub record World : Type 0 where
  pub err : ℤ
  pub events : ℕ → List Event

-- mqtt_init, with the calls of itself that its events lead to: at most `depth` in one another. The
-- last of `depth` calls is the one that meets `worlds 0`; `none` is a deeper one.
unfoldable pub connect : (ℕ → World) → ℕ → Client → Option Client
connect worlds zero c = none
connect worlds (suc depth) c =
    mqtt_init (connect worlds depth) (worlds depth).err (worlds depth).events c

-- What mqtt_input and mqtt_live return: no error, -EAGAIN or -EWOULDBLOCK, or any other error.
pub data Outcome : Type 0 where
  fine again would_block failed : Outcome

-- What a round of mqtt_thread meets: the result of zsock_poll, and whether it reports input.
pub record Round : Type 0 where
  pub worlds : ℕ → World
  pub res : ℤ
  pub pollin : Bool
  pub events : List Event
  pub input : Outcome
  pub live : Outcome

abbrev pub input_fails : Outcome → Bool
input_fails failed = true
input_fails _ = false

-- `mqtt_live` is not forgiven -EWOULDBLOCK; in Zephyr's errno.h it is the same number as -EAGAIN.
abbrev pub live_fails : Outcome → Bool
live_fails failed = true
live_fails _ = false

abbrev pub give_up : Client → Client
give_up c = note aborts (set_connected false c)

-- The end of a round.
pub keep_alive : Outcome → Client → Client
keep_alive live c = if live_fails live then give_up (note lives c) else note lives c

abbrev pub is_positive : ℤ → Bool
is_positive (pos (suc n)) = true
is_positive _ = false

-- The three courses of a round of mqtt_thread: no connection, input, and none.
unfoldable pub reconnect : ℕ → Round → Client → Option Client
reconnect depth r c = do c' ← connect r.worlds depth c; some (note (sleeps 5000) c')

pub take_input : ℕ → Round → Client → Option Client
take_input depth r c = do
  c' ← mqtt_input (connect r.worlds depth) r.events c
  some (if input_fails r.input then give_up c' else keep_alive r.live c')

-- A round of mqtt_thread, at the given depth of calls.
unfoldable pub thread_round : ℕ → Round → Client → Option Client
thread_round depth r c =
    if not c.connected
    then reconnect depth r c
    else (if ltb_ℤ r.res (pos 0)
        then some (give_up c)
        else (if is_positive r.res && r.pollin
            then take_input depth r c
            else some (keep_alive r.live c)))

-- What the threads do with the connection: a round of mqtt_thread, or the main loop's publish_status.
pub data Job : Type 0 where
  round : Round → Job
  status : (ℕ → World) → Option (List ℕ) → ℤ → Job

unfoldable pub do_job : ℕ → Job → Client → Option Client
do_job depth (round r) c = thread_round depth r c
do_job depth (status worlds payload sent) c = publish_status (connect worlds depth) payload sent c

unfoldable pub do_jobs : ℕ → List Job → Client → Option Client
do_jobs depth [] c = some c
do_jobs depth (j ∷ js) c = do c' ← do_job depth j c; do_jobs depth js c'

abbrev pub unconnected : Client
unconnected = record { connected = false; log = [] }
