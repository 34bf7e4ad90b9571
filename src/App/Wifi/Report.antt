-- ===== src/App/Wifi/Report.antt =====
-- What wifi_wait_for_ip_addr prints after its wait, and wifi_disconnect.
use haier_controller.Prelude.{
  ℕ, ℤ, ◌≡◌, refl, ◌++◌, leb, if◌then◌else◌, List, [], ◌∷◌, Option, none, some,
}
use haier_controller.Prelude.Int.{is_zero}
use haier_controller.Cmd.Types.{◌>>=◌}

-- The fields of `struct wifi_iface_status` that the code reads.
pub record IfaceStatus : Type 0 where
  pub state : ℕ
  pub ssid : List ℕ
  pub band : ℕ
  pub channel : ℕ
  pub security : ℕ

-- What Zephyr answers: the result of the request for the status, the structure that it filled, if it
-- did, and the texts of the two addresses, `none` for NULL.
pub record IfaceAnswers : Type 0 where
  pub err : ℤ
  pub status : Option IfaceStatus
  pub address : Option (List ℕ)
  pub gateway : Option (List ℕ)

pub data Printed : Type 0 where
  status_failed no_address no_gateway heading : Printed
  ssid ip_address gateway : List ℕ → Printed
  band channel security : ℕ → Printed

-- The array behind a text that could not be made was filled with NULs.
abbrev text_of : Option (List ℕ) → List ℕ
text_of none = []
text_of (some t) = t

abbrev lacks : Option (List ℕ) → Printed → List Printed
lacks none p = p ∷ []
lacks (some t) p = []

-- The lines below the heading, from WIFI_STATE_ASSOCIATED on.
abbrev details : ℕ → IfaceAnswers → IfaceStatus → List Printed
details associated a s =
    if leb associated s.state
    then ssid s.ssid
      ∷ band s.band
      ∷ channel s.channel
      ∷ security s.security
      ∷ ip_address (text_of a.address)
      ∷ gateway (text_of a.gateway)
      ∷ []
    else []

-- The lines, in order; `none` is a read of the structure on the stack, which nothing has filled.
pub print_status : ℕ → IfaceAnswers → Option (List Printed)
print_status associated a = do
  s ← a.status
  some (
      (if is_zero a.err then [] else status_failed ∷ [])
      ++ (lacks a.address no_address
          ++ (lacks a.gateway no_gateway ++ heading ∷ details associated a s)))

-- An error of the request is printed, and does not keep the code from the structure.
pub print_status-unfilled :
    (associated : ℕ) (err : ℤ) (address gateway : Option (List ℕ))
    → print_status associated
        (record { err = err; status = none; address = address; gateway = gateway })
      ≡ none
unfolding print_status
print_status-unfilled associated err a g = refl

-- wifi_disconnect, with the answer to its request.
pub wifi_disconnect : ℤ → ℤ
wifi_disconnect ret = ret
