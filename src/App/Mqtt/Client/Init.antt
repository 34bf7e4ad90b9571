-- ===== src/App/Mqtt/Client/Init.antt =====
-- mqtt_init before a broker that accepts the connection, and before one that does not answer.
use haier_controller.Prelude.{
  ℕ, zero, ℤ, suc, pos, ◌<◌, ◌≡◌, refl, ◌∙◌, true, false, List, [], ◌∷◌, Option, some, arith,
}
use haier_controller.App.Mqtt.Client.{
  Action, connects, subscribes, answered, inputs, sleeps, Client, Event, publish, connack, suback,
  disconnect, other, subscribe_to_topic, handler, handle_events, mqtt_input, await, mqtt_init,
}

-- Events that the handler only logs.
abbrev pub IsIdle : List Event → Type 0
IsIdle [] = Unit
IsIdle (suback ∷ es) = IsIdle es
IsIdle (other ∷ es) = IsIdle es
IsIdle (_ ∷ es) = ⊥

-- What the calls of mqtt_input bring: the broker's consent in the call `i`, and nothing before; or
-- nothing at all in the time that mqtt_init waits.
pub data Answer (events : ℕ → List Event) : Type 0 where
  accepts :
      (i : ℕ) (sub : ℤ)
      → i < 50
      → ((j : ℕ) → j < i → IsIdle (events j))
      → events i ≡ connack (pos 0) sub ∷ []
      → Answer events
  silent : ((j : ℕ) → j < 50 → IsIdle (events j)) → Answer events

-- The log after `n` more calls of mqtt_input.
abbrev pub tries : ℕ → List Action → List Action
tries zero log = log
tries (suc n) log = tries n (sleeps 100 ∷ inputs ∷ log)

abbrev pub outcome : {events : ℕ → List Event} → Answer events → List Action → Client
outcome (accepts i sub h idle e) log = record {
  connected = true;
  log = sleeps 100 ∷ subscribes ∷ answered (pos 0) ∷ inputs ∷ tries i (connects ∷ log);
}
outcome (silent idle) log = record { connected = false; log = tries 50 (connects ∷ log) }

module _ (again : Client → Option Client) where
  idle_events : (es : List Event) (c : Client) → IsIdle es → handle_events again es c ≡ some c
  unfolding handle_events handler
  idle_events [] c h = refl
  idle_events (publish m ∷ es) c h = absurd h
  idle_events (connack r sub ∷ es) c h = absurd h
  idle_events (suback ∷ es) c h = idle_events es c h
  idle_events (disconnect ∷ es) c h = absurd h
  idle_events (other ∷ es) c h = idle_events es c h

  await-connected :
      (left : ℕ) (events : ℕ → List Event) (log : List Action)
      → await again left events (record { connected = true; log = log })
        ≡ some (record { connected = true; log = log })
  unfolding await
  await-connected zero events log = refl
  await-connected (suc left) events log = refl

  await-idle :
      (left : ℕ) (events : ℕ → List Event) (log : List Action)
      → IsIdle (events 0)
      → await again (suc left) events (record { connected = false; log = log })
        ≡ await again left
            (λ i. events (suc i))
            (record { connected = false; log = sleeps 100 ∷ inputs ∷ log })
  unfolding await mqtt_input
  await-idle left events log h =
      rw (idle_events (events 0) (record { connected = false; log = inputs ∷ log }) h)

  await-accepts :
      (i left : ℕ) (sub : ℤ) (events : ℕ → List Event) (log : List Action)
      → i < left
      → ((j : ℕ) → j < i → IsIdle (events j))
      → events i ≡ connack (pos 0) sub ∷ []
      → await again left events (record { connected = false; log = log })
        ≡ some (record {
          connected = true;
          log = sleeps 100 ∷ subscribes ∷ answered (pos 0) ∷ inputs ∷ tries i log;
        })
  unfolding await mqtt_input handle_events handler subscribe_to_topic
  await-accepts i zero sub events log h idle e = absurd (omega arith)
  await-accepts zero (suc left) sub events log h idle e = rw e (
      await-connected left (λ i. events (suc i))
        (sleeps 100 ∷ subscribes ∷ answered (pos 0) ∷ inputs ∷ log))
  await-accepts (suc i) (suc left) sub events log h idle e =
      await-idle left events log (idle 0 (omega arith))
      ∙ await-accepts i left sub (λ i. events (suc i)) (sleeps 100 ∷ inputs ∷ log) (omega arith)
          (λ j p. idle (suc j) (omega arith)) e

  await-silent :
      (left : ℕ) (events : ℕ → List Event) (log : List Action)
      → ((j : ℕ) → j < left → IsIdle (events j))
      → await again left events (record { connected = false; log = log })
        ≡ some (record { connected = false; log = tries left log })
  unfolding await
  await-silent zero events log idle = refl
  await-silent (suc left) events log idle =
      await-idle left events log (idle 0 (omega arith))
      ∙ await-silent left (λ i. events (suc i)) (sleeps 100 ∷ inputs ∷ log)
          (λ j p. idle (suc j) (omega arith))

  -- If mqtt_connect succeeds and the client is not connected, mqtt_init returns: connected, with
  -- a subscription asked for, whatever mqtt_subscribe answers, right after the call of mqtt_input
  -- that brings the broker's consent, if that is one of the first 50 and those before bring
  -- nothing of note; and unconnected after 50 calls, if all of these bring nothing of note.
  pub mqtt_init-outcome :
      (events : ℕ → List Event) (log : List Action) (a : Answer events)
      → mqtt_init again (pos 0) events (record { connected = false; log = log })
        ≡ some (outcome a log)
  unfolding mqtt_init
  mqtt_init-outcome events log (accepts i sub h idle e) =
      await-accepts i 50 sub events (connects ∷ log) h idle e
  mqtt_init-outcome events log (silent idle) = await-silent 50 events (connects ∷ log) idle
