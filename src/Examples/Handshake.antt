-- ===== src/Examples/Handshake.antt =====
-- Runs of two callers of write_pump beside the sniffer.
use haier_controller.Prelude.{Bool, refl, true, false}
use haier_controller.Driver.Handshake.{
  Caller, outside, waits, sends, Sniffer, listens, rests, resets, requests, blocks, starts, enters,
  stores, finds, to_second, wakes, System, first, second, sniffs, Steps, here, then_, Reach,
}
use haier_controller.Driver.Handshake.Exclusion.{IsExclusive, Reach-IsExclusive}
use haier_controller.Driver.Handshake.Served.{Arrives, waits-Arrives}
use haier_controller.Driver.Handshake.Lost.{IsLost, Unserved, sends-Unserved}

abbrev at : Bool → Bool → Bool → Sniffer → Caller → Caller → System
at pending transmitting available n a b = record {
  shared = record {
    request = record { pending = pending; transmitting = transmitting };
    available = available;
  };
  sniffer = n;
  one = a;
  two = b;
}

-- The first caller waits.
one_waits : Reach (at true false false listens waits outside)
one_waits = then_ (then_ (then_ here (first (resets refl))) (first requests)) (first (blocks refl))

waits-Arrives_example : Arrives 5 (at true false false listens waits outside).shared listens waits
waits-Arrives_example = waits-Arrives one_waits refl refl refl

-- The second caller is on the bus, and the sniffer rests.
two_sends : Reach (at true true false rests outside sends)
two_sends =
    then_
      (then_
        (then_
          (then_
            (then_
              (then_ (then_ (then_ here (second (resets refl))) (second requests))
                (second (blocks refl)))
              (sniffs (enters refl)))
            (sniffs stores))
          (sniffs (finds refl)))
        (sniffs (to_second refl)))
      (second starts)

Reach-IsExclusive_example : IsExclusive (at true true false rests outside sends)
Reach-IsExclusive_example = Reach-IsExclusive two_sends

-- Then the first one calls, and waits.
both : Reach (at true true false rests waits sends)
both = then_ (then_ (then_ two_sends (first (resets refl))) (first requests)) (first (blocks refl))

-- After the write the sniffer wakes up.
sends-Unserved_example :
    Steps (at true true false rests waits sends) (at false false false rests waits outside)
    × IsLost (at false false false rests waits outside)
    × Unserved (at false false false listens waits outside)
sends-Unserved_example = sends-Unserved both refl refl (sniffs (wakes refl))
