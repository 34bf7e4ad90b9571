-- ===== src/App/Mqtt/Encode/Status.antt =====
-- From the registers to the payload of publish_status.
use haier_controller.Prelude.{ℕ, ◌≡◌, List, some, arith}
use haier_controller.Floats.{Floats}
use haier_controller.Driver.State.{Regs, IsRegs}
use haier_controller.App.Status.{StatusPacket, Locals, get_status}
use haier_controller.App.Status.Total.{IsStatus, get_status-total}
use haier_controller.App.Mqtt.Encode.{Zcbor, encode}
use haier_controller.App.Mqtt.Encode.Room.{Sizes, IsSmall, encode-IsSmall}

small : {Float : Type 0} (p : StatusPacket Float) → IsStatus p → IsSmall p
small p s = omega (arith, s)

pub get_status-encode :
    (F : Floats) (z : Zcbor F.Float) (L : Sizes z) (r : Regs) (ambient : F.Float)
    (locals : Locals F)
    → IsRegs r
    → (p : StatusPacket F.Float) × (payload : List ℕ) × (get_status F r ambient locals ≡ some p)
      × (encode z p ≡ some payload)
get_status-encode F z L r ambient locals ok =
    let (p, e, s) = get_status-total F r ambient locals ok in
    let (payload, q) = encode-IsSmall z L p (small p s) in (p, payload, e, q)
