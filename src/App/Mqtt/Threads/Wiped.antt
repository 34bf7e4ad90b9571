-- ===== src/App/Mqtt/Threads/Wiped.antt =====
-- The clients that calls of mqtt_init work on: each was made by a wipe that has been.
use haier_controller.Prelude.{ℕ, ◌≤◌, ◌<◌, ◌≡◌, arith}
use haier_controller.App.Mqtt.Threads.{
  Shared, Init, begins, connects, awaits, inputs, pauses, over, Publish, asks, publishes, inits,
  done, Thread, top, starts, rests, polls, reads, lives, Loop, idles, boots, reports, InitMove,
  PublishMove, ThreadMove, LoopMove, Threads, Interleaved, thread_moves, main_moves, here, then_,
  Reachable,
}

-- The wipes that a position has seen are among the first `wipes`.
unfoldable mutual
  Within : ℕ → Init → Type 0
  Within wipes (connects n) = n ≤ wipes
  Within wipes (awaits n left) = n ≤ wipes
  Within wipes (inputs n left) = n ≤ wipes
  Within wipes (pauses n left) = n ≤ wipes
  Within wipes (Init.answers n left p) = (n ≤ wipes) × WithinPublish wipes p
  Within wipes begins = Unit
  Within wipes over = Unit

  WithinPublish : ℕ → Publish → Type 0
  WithinPublish wipes (inits i) = Within wipes i
  WithinPublish wipes asks = Unit
  WithinPublish wipes publishes = Unit
  WithinPublish wipes done = Unit

abbrev WithinThread : ℕ → Thread → Type 0
WithinThread wipes (starts i) = Within wipes i
WithinThread wipes (Thread.answers p) = WithinPublish wipes p
WithinThread wipes _ = Unit

abbrev WithinMain : ℕ → Loop → Type 0
WithinMain wipes (boots i) = Within wipes i
WithinMain wipes (reports p) = WithinPublish wipes p
WithinMain wipes _ = Unit

mutual
  unfolding Within WithinPublish

  Within-le : (i : Init) {w v : ℕ} → w ≤ v → Within w i → Within v i
  Within-le (connects n) h k = omega arith
  Within-le (awaits n left) h k = omega arith
  Within-le (inputs n left) h k = omega arith
  Within-le (pauses n left) h k = omega arith
  Within-le (Init.answers n left p) h k = (omega (arith, k.0), WithinPublish-le p h k.1)
  Within-le begins h k = tt
  Within-le over h k = tt

  WithinPublish-le : (p : Publish) {w v : ℕ} → w ≤ v → WithinPublish w p → WithinPublish v p
  WithinPublish-le (inits i) h k = Within-le i h k
  WithinPublish-le asks h k = tt
  WithinPublish-le publishes h k = tt
  WithinPublish-le done h k = tt

WithinThread-le : (p : Thread) {w v : ℕ} → w ≤ v → WithinThread w p → WithinThread v p
WithinThread-le (starts i) h k = Within-le i h k
WithinThread-le (Thread.answers p) h k = WithinPublish-le p h k
WithinThread-le top h k = tt
WithinThread-le rests h k = tt
WithinThread-le polls h k = tt
WithinThread-le reads h k = tt
WithinThread-le lives h k = tt

WithinMain-le : (l : Loop) {w v : ℕ} → w ≤ v → WithinMain w l → WithinMain v l
WithinMain-le (boots i) h k = Within-le i h k
WithinMain-le idles h k = tt
WithinMain-le (reports p) h k = WithinPublish-le p h k

mutual
  unfolding Within WithinPublish

  init_wipes :
      {s t : Shared} {i j : Init}
      → InitMove s i t j
      → Within s.wipes i
      → (s.wipes ≤ t.wipes) × Within t.wipes j
  init_wipes InitMove.wipes_client h = (omega arith, omega arith)
  init_wipes (InitMove.fails err e) h = (omega arith, tt)
  init_wipes (InitMove.opens err e) h = (omega arith, h)
  init_wipes (InitMove.succeeds e) h = (omega arith, tt)
  init_wipes (InitMove.times_out e) h = (omega arith, tt)
  init_wipes (InitMove.reads_on e) h = (omega arith, h)
  init_wipes (InitMove.hears e x) h = (omega arith, h)
  init_wipes (InitMove.commanded m c) h = (omega arith, (h, tt))
  init_wipes (InitMove.answering m) h =
      let k = publish_wipes m h.1 in (k.0, (omega (arith, k.0, h.0), k.1))
  init_wipes InitMove.answered h = (omega arith, h.0)
  init_wipes InitMove.returns h = (omega arith, h)
  init_wipes InitMove.wakes h = (omega arith, h)

  publish_wipes :
      {s t : Shared} {p q : Publish}
      → PublishMove s p t q
      → WithinPublish s.wipes p
      → (s.wipes ≤ t.wipes) × WithinPublish t.wipes q
  publish_wipes (PublishMove.finds e) h = (omega arith, tt)
  publish_wipes (PublishMove.misses e) h = (omega arith, tt)
  publish_wipes (PublishMove.inside m) h = init_wipes m h
  publish_wipes PublishMove.published h = (omega arith, tt)
  publish_wipes PublishMove.gives_up h = (omega arith, tt)

thread_wipes :
    {s t : Shared} {p q : Thread}
    → ThreadMove s p t q
    → WithinThread s.wipes p
    → (s.wipes ≤ t.wipes) × WithinThread t.wipes q
unfolding Within WithinPublish
thread_wipes (ThreadMove.inside m) h = init_wipes m h
thread_wipes (ThreadMove.answering m) h = publish_wipes m h
thread_wipes (ThreadMove.reconnects e) h = (omega arith, tt)
thread_wipes (ThreadMove.listens e) h = (omega arith, tt)
thread_wipes ThreadMove.sleeps h = (omega arith, tt)
thread_wipes ThreadMove.returns h = (omega arith, tt)
thread_wipes (ThreadMove.poll_fails res e) h = (omega arith, tt)
thread_wipes (ThreadMove.polled res b e) h = (omega arith, tt)
thread_wipes (ThreadMove.quiet res b e f) h = (omega arith, tt)
thread_wipes (ThreadMove.hears e x) h = (omega arith, tt)
thread_wipes (ThreadMove.commanded m c) h = (omega arith, tt)
thread_wipes ThreadMove.answered h = (omega arith, tt)
thread_wipes (ThreadMove.input_ends o e) h = (omega arith, tt)
thread_wipes (ThreadMove.goes_on o e) h = (omega arith, tt)
thread_wipes (ThreadMove.live_ends o e) h = (omega arith, tt)
thread_wipes (ThreadMove.lived o e) h = (omega arith, tt)

main_wipes :
    {s t : Shared} {l k : Loop}
    → LoopMove s l t k
    → WithinMain s.wipes l
    → (s.wipes ≤ t.wipes) × WithinMain t.wipes k
unfolding Within WithinPublish
main_wipes (LoopMove.booting m) h = init_wipes m h
main_wipes LoopMove.booted h = (omega arith, tt)
main_wipes LoopMove.reports_on h = (omega arith, tt)
main_wipes (LoopMove.inside m) h = publish_wipes m h
main_wipes LoopMove.ends h = (omega arith, tt)

record IsCounted (s : Threads) : Type 0 where
  of_thread : WithinThread s.shared.wipes s.thread
  of_main : WithinMain s.shared.wipes s.main

Interleaved-IsCounted : {s t : Threads} → Interleaved s t → IsCounted s → IsCounted t
Interleaved-IsCounted {s} (thread_moves m) c =
    let k = thread_wipes m c.of_thread in
    record { of_thread = k.1; of_main = WithinMain-le s.main k.0 c.of_main }
Interleaved-IsCounted {s} (main_moves m) c =
    let k = main_wipes m c.of_main in
    record { of_thread = WithinThread-le s.thread k.0 c.of_thread; of_main = k.1 }

Reachable-IsCounted : {s : Threads} → Reachable s → IsCounted s
unfolding Within
Reachable-IsCounted here = record { of_thread = tt; of_main = tt }
Reachable-IsCounted (then_ r m) = Interleaved-IsCounted m (Reachable-IsCounted r)

-- A client that was wiped again after its own wipe.
abbrev pub IsStale : Threads → ℕ → Type 0
IsStale s n = n < s.shared.wipes

pub Reachable-wipes :
    {s : Threads} {n left : ℕ}
    → Reachable s
    → s.thread ≡ starts (pauses n left)
    → n ≤ s.shared.wipes
unfolding Within
Reachable-wipes {s} r e = rw e at (Reachable-IsCounted r).of_thread
