-- ===== src/Examples/Topics.antt =====
-- Messages on the topic of commands.
use haier_controller.Prelude.{
  refl, ◌+◌, ◌*◌, ◌-◌, false, ℕ, zero, suc, pos, ◌≡◌, List, [], ◌∷◌, none, arith,
}
use haier_controller.App.Mqtt.{cmd_ch, Call, on_publish, Numbers}
use haier_controller.App.Mqtt.Laws.{Free, on_publish-undefined}
use haier_controller.Floats.Exact.{exact}
use haier_controller.Driver.Api.{out_of_range}

abbrev pub zeros : ℕ → List ℕ
zeros zero = []
zeros (suc n) = 0 ∷ zeros n

zeros-Free : (n : ℕ) → Free b' ' (zeros n)
zeros-Free zero = tt
zeros-Free (suc n) = (grind arith, zeros-Free n)

-- `ch 45`
abbrev call : Call
call = record { handler = cmd_ch; arg = b'4' ∷ b'5' ∷ [] }

-- `on`, in a fresh buffer.
on_publish-undefined_example : on_publish 2 (pos 2) (b'o' ∷ b'n' ∷ 0 ∷ zeros 125) ≡ none
on_publish-undefined_example =
    on_publish-undefined (b'o' ∷ b'n' ∷ []) 2 0 (zeros 125) (omega arith) (grind arith)
      (zeros-Free 125)

-- Numbers without a sign.
abbrev pub decimal : ℕ → List ℕ → ℕ
decimal n [] = n
decimal n (c ∷ cs) = decimal (n * 10 + (c - b'0')) cs

abbrev pub numbers : Numbers exact
numbers = record {
  strtof = λ text. exact.of_int (pos (decimal 0 text));
  strtol = λ text. pos (decimal 0 text);
}

pub passes : out_of_range exact (exact.of_int (pos 45)) ≡ false
unfolding out_of_range
passes = refl
