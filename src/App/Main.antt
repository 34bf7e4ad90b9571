-- ===== src/App/Main.antt =====
-- A round of the main loop of fw/src/main.c, between the two calls for the LED.
use haier_controller.Prelude.{ℕ, ℤ, ◌≡◌, true, List, Option, some, arith}
use haier_controller.Floats.{Floats}
use haier_controller.Cmd.Types.{◌>>=◌}
use haier_controller.Driver.State.{Regs, IsRegs}
use haier_controller.App.Status.{StatusPacket, Locals, get_status}
use haier_controller.App.Mqtt.Client.{Client, publishes, note, publish_msg, publish_status}
use haier_controller.App.Mqtt.Encode.{Zcbor, encode}
use haier_controller.App.Mqtt.Encode.Room.{Sizes}
use haier_controller.App.Mqtt.Encode.Status.{get_status-encode}

module _ (F : Floats) (z : Zcbor F.Float) (again : Client → Option Client) where
  pub main_round : Regs → F.Float → Locals F → ℤ → Client → Option Client
  main_round r ambient locals sent c = do
    packet ← get_status F r ambient locals
    publish_status again (encode z packet) sent c

  published :
      (payload : List ℕ) (sent : ℤ) (c : Client)
      → c.connected ≡ true
      → publish_status again (some payload) sent c ≡ some (note (publishes payload) c)
  unfolding publish_status publish_msg
  published payload sent c e = ground (arith, e)

  -- For registers of their sizes and a connected client, and an encoder that takes no more room
  -- than CBOR takes, a round of the main loop fills a status packet, its encoding fits the buffer
  -- of 64 bytes, and exactly this payload is published.
  pub main_round-publishes :
      (L : Sizes z) (r : Regs) (ambient : F.Float) (locals : Locals F) (sent : ℤ) (c : Client)
      → IsRegs r
      → c.connected ≡ true
      → (packet : StatusPacket F.Float) × (payload : List ℕ) × (get_status F r ambient locals
          ≡ some packet)
        × (encode z packet ≡ some payload)
        × (main_round r ambient locals sent c ≡ some (note (publishes payload) c))
  unfolding main_round
  main_round-publishes L r ambient locals sent c ok e =
      let (p, payload, got, written) = get_status-encode F z L r ambient locals ok in
      (p, payload, got, written, rw (got, written) (published payload sent c e))
