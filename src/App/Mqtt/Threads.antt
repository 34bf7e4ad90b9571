-- ===== src/App/Mqtt/Threads.antt =====
-- mqtt_thread and the main loop, interleaved: both call mqtt_init and publish_msg of fw/src/mqtt.c on
-- the one `client`. A position stands at a call of the library or of k_sleep, or between two accesses
-- to `connected`; the other thread can run there.
pub mod Wiped
pub mod Overtakes
use haier_controller.Prelude.{
  ℕ, zero, suc, ℤ, pos, ◌&&◌, ◌≡◌, Bool, true, false, List, Option, none, some,
}
use haier_controller.Prelude.Int.{is_zero, ltb_ℤ}
use haier_controller.App.Mqtt.{Call, on_publish}
use haier_controller.App.Mqtt.Client.{
  Message, Event, publish, connack, suback, disconnect, other, Outcome, input_fails, live_fails,
  is_positive,
}

-- `connected`, and how often mqtt_client_init has wiped `client`.
pub record Shared : Type 0 where
  pub connected : Bool
  pub wipes : ℕ

mutual
  -- Where a call of mqtt_init stands: before mqtt_client_init; in mqtt_connect; before the test of
  -- its loop, with the rounds to go; in mqtt_input; there, in the answer to a command; in k_sleep;
  -- back. `n` counts the wipes up to its own.
  pub data Init : Type 0 where
    begins : Init
    connects : (n : ℕ) → Init
    awaits inputs pauses : (n left : ℕ) → Init
    answers : (n left : ℕ) → Publish → Init
    over : Init

  -- Where a call of publish_msg stands: before the test of `connected`; in mqtt_publish; in
  -- mqtt_init; back.
  pub data Publish : Type 0 where
    asks publishes : Publish
    inits : Init → Publish
    done : Publish

-- mqtt_thread: before the test of `connected`; in mqtt_init; in the sleep of 5 s; in zsock_poll; in
-- mqtt_input; there, in the answer to a command; in mqtt_live.
pub data Thread : Type 0 where
  top : Thread
  starts : Init → Thread
  rests polls reads : Thread
  answers : Publish → Thread
  lives : Thread

-- main: in its call of mqtt_init before the loop; in get_status or asleep; in publish_status.
pub data Loop : Type 0 where
  boots : Init → Loop
  idles : Loop
  reports : Publish → Loop

abbrev pub wipe : Shared → Shared
wipe s = record s { wipes = suc s.wipes }

abbrev pub connection : Bool → Shared → Shared
connection b s = record s { connected = b }

-- What an event that leads to no publish_msg makes of `connected`: the handler looks at the
-- result of a CONNACK, and dispatch_cmd at the message.
pub data Hears (b : Bool) : Event → Bool → Type 0 where
  consents : {result sub : ℤ} → is_zero result ≡ true → Hears b (connack result sub) true
  refuses : {result sub : ℤ} → is_zero result ≡ false → Hears b (connack result sub) b
  subscribed : Hears b suback b
  drops : Hears b disconnect false
  ignores : Hears b other b
  no_command : {m : Message} → on_publish m.len m.answer m.buf ≡ some none → Hears b (publish m) b
  no_status :
      {m : Message} {call : Call}
      → on_publish m.len m.answer m.buf ≡ some (some call)
      → m.payload ≡ none
      → Hears b (publish m) b

-- A message with a command, whose handler ran, and a status to answer it.
pub record IsCommand (m : Message) : Type 0 where
  pub call : Call
  pub found : on_publish m.len m.answer m.buf ≡ some (some call)
  pub payload : List ℕ
  pub encoded : m.payload ≡ some payload

mutual
  -- A step of mqtt_init; `err` is what mqtt_connect returns.
  pub data InitMove (s : Shared) : Init → Shared → Init → Type 0 where
    wipes_client : InitMove s begins (wipe s) (connects (suc s.wipes))
    fails : {n : ℕ} (err : ℤ) → is_zero err ≡ false → InitMove s (connects n) s over
    opens : {n : ℕ} (err : ℤ) → is_zero err ≡ true → InitMove s (connects n) s (awaits n 50)
    succeeds : {n left : ℕ} → s.connected ≡ true → InitMove s (awaits n left) s over
    times_out : {n : ℕ} → s.connected ≡ false → InitMove s (awaits n zero) s over
    reads_on :
        {n left : ℕ} → s.connected ≡ false → InitMove s (awaits n (suc left)) s (inputs n left)
    hears :
        {n left : ℕ} {b : Bool} (e : Event)
        → Hears s.connected e b
        → InitMove s (inputs n left) (connection b s) (inputs n left)
    commanded :
        {n left : ℕ} (m : Message)
        → IsCommand m
        → InitMove s (inputs n left) s (answers n left asks)
    answering :
        {n left : ℕ} {t : Shared} {p q : Publish}
        → PublishMove s p t q
        → InitMove s (answers n left p) t (answers n left q)
    answered : {n left : ℕ} → InitMove s (answers n left done) s (inputs n left)
    returns : {n left : ℕ} → InitMove s (inputs n left) s (pauses n left)
    wakes : {n left : ℕ} → InitMove s (pauses n left) s (awaits n left)

  pub data PublishMove (s : Shared) : Publish → Shared → Publish → Type 0 where
    finds : s.connected ≡ true → PublishMove s asks s publishes
    misses : s.connected ≡ false → PublishMove s asks s (inits begins)
    inside : {t : Shared} {i j : Init} → InitMove s i t j → PublishMove s (inits i) t (inits j)
    published : PublishMove s publishes s done
    gives_up : PublishMove s (inits over) s done

-- A step of mqtt_thread; `res` is what zsock_poll returns, `pollin` whether it reports input, and
-- `o` what mqtt_input or mqtt_live returns.
pub data ThreadMove (s : Shared) : Thread → Shared → Thread → Type 0 where
  reconnects : s.connected ≡ false → ThreadMove s top s (starts begins)
  listens : s.connected ≡ true → ThreadMove s top s polls
  inside : {t : Shared} {i j : Init} → InitMove s i t j → ThreadMove s (starts i) t (starts j)
  sleeps : ThreadMove s (starts over) s rests
  returns : ThreadMove s rests s top
  poll_fails : (res : ℤ) → ltb_ℤ res (pos 0) ≡ true → ThreadMove s polls (connection false s) top
  polled :
      (res : ℤ) (pollin : Bool) → (is_positive res && pollin) ≡ true → ThreadMove s polls s reads
  quiet :
      (res : ℤ) (pollin : Bool)
      → ltb_ℤ res (pos 0) ≡ false
      → (is_positive res && pollin) ≡ false
      → ThreadMove s polls s lives
  hears : {b : Bool} (e : Event) → Hears s.connected e b → ThreadMove s reads (connection b s) reads
  commanded : (m : Message) → IsCommand m → ThreadMove s reads s (answers asks)
  answering :
      {t : Shared} {p q : Publish} → PublishMove s p t q → ThreadMove s (answers p) t (answers q)
  answered : ThreadMove s (answers done) s reads
  input_ends : (o : Outcome) → input_fails o ≡ true → ThreadMove s reads (connection false s) top
  goes_on : (o : Outcome) → input_fails o ≡ false → ThreadMove s reads s lives
  live_ends : (o : Outcome) → live_fails o ≡ true → ThreadMove s lives (connection false s) top
  lived : (o : Outcome) → live_fails o ≡ false → ThreadMove s lives s top

pub data LoopMove (s : Shared) : Loop → Shared → Loop → Type 0 where
  booting : {t : Shared} {i j : Init} → InitMove s i t j → LoopMove s (boots i) t (boots j)
  booted : LoopMove s (boots over) s idles
  reports_on : LoopMove s idles s (reports asks)
  inside : {t : Shared} {p q : Publish} → PublishMove s p t q → LoopMove s (reports p) t (reports q)
  ends : LoopMove s (reports done) s idles

pub record Threads : Type 0 where
  pub shared : Shared
  pub thread : Thread
  pub main : Loop

pub data Interleaved (s : Threads) : Threads → Type 0 where
  thread_moves :
      {m : Shared} {t : Thread}
      → ThreadMove s.shared s.thread m t
      → Interleaved s (record { shared = m; thread = t; main = s.main })
  main_moves :
      {m : Shared} {l : Loop}
      → LoopMove s.shared s.main m l
      → Interleaved s (record { shared = m; thread = s.thread; main = l })

-- main comes to mqtt_init, and mqtt_thread begins 30 s after the start.
abbrev pub at_start : Threads
at_start = record {
  shared = record { connected = false; wipes = 0 };
  thread = top;
  main = boots begins;
}

pub data Runs (s : Threads) : Threads → Type 0 where
  here : Runs s s
  then_ : {t u : Threads} → Runs s t → Interleaved t u → Runs s u

abbrev pub Reachable : Threads → Type 0
Reachable = Runs at_start
