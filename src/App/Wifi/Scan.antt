-- ===== src/App/Wifi/Scan.antt =====
-- The results of a scan, and the name that they are compared with.
use haier_controller.Prelude.{
  ℕ, zero, suc, ◌+◌, ◌≡◌, refl, ap, true, List, [], ◌∷◌, ◌++◌, some, arith, length,
}
use haier_controller.App.Mqtt.{c_string}
use haier_controller.App.Mqtt.Laws.{Free}
use haier_controller.App.Wifi.{
  Wifi, ssid_size, same_start, copy_text, is_named, take_channel, on_wifi_scan_result,
}

-- Only the first `length p` bytes are compared.
same_start-append :
    (p xs ys : List ℕ) → Free 0 p → same_start (length p) (p ++ xs) (p ++ ys) ≡ some true
unfolding same_start
same_start-append [] xs ys h = refl
same_start-append (c ∷ p) xs ys h = ground (arith, same_start-append p xs ys h.1)

-- Where a name is wanted, a scan result whose name is any beginning of it, the empty one too,
-- sets the channel.
pub on_wifi_scan_result-beginning :
    (w : Wifi) (p xs ys : List ℕ) (channel : ℕ)
    → Free 0 p
    → w.target_ssid ≡ p ++ ys
    → is_named w.target_ssid ≡ true
    → on_wifi_scan_result (record { ssid = p ++ xs; ssid_length = length p; channel = channel }) w
      ≡ some (record w { target_channel = some channel })
unfolding on_wifi_scan_result take_channel
on_wifi_scan_result-beginning w p xs ys channel h e named =
    ground (arith, same_start-append p xs ys h, ap (same_start (length p) (p ++ xs)) e)

-- The first `n` bytes of a text, and the same filled with NULs.
abbrev pub first : ℕ → List ℕ → List ℕ
first zero text = []
first (suc n) [] = []
first (suc n) (c ∷ cs) = c ∷ first n cs

abbrev pub padded : ℕ → List ℕ → List ℕ
padded zero text = []
padded (suc n) [] = 0 ∷ padded n []
padded (suc n) (c ∷ cs) = c ∷ padded n cs

copy_text-padded :
    (n : ℕ) (text ds rest : List ℕ)
    → length ds ≡ n
    → copy_text n text (ds ++ rest) ≡ some (padded n text ++ rest)
unfolding copy_text
copy_text-padded zero text [] rest e = refl
copy_text-padded zero text (d ∷ ds) rest e = absurd (omega arith)
copy_text-padded (suc n) text [] rest e = absurd (omega arith)
copy_text-padded (suc n) [] (d ∷ ds) rest e = rw (copy_text-padded n [] ds rest (omega arith)) refl
copy_text-padded (suc n) (c ∷ cs) (d ∷ ds) rest e =
    rw (copy_text-padded n cs ds rest (omega arith)) refl

c_string-padded :
    (n : ℕ) (text rest : List ℕ)
    → Free 0 text
    → c_string (padded n text ++ 0 ∷ rest) ≡ some (first n text)
unfolding c_string
c_string-padded zero text rest h = refl
c_string-padded (suc n) [] rest h = refl
c_string-padded (suc n) (c ∷ cs) rest h = ground (arith, c_string-padded n cs rest h.1)

length-padded : (n : ℕ) (text rest : List ℕ) → length (padded n text ++ rest) ≡ n + length rest
length-padded zero text rest = omega arith
length-padded (suc n) [] rest = omega (arith, length-padded n [] rest)
length-padded (suc n) (c ∷ cs) rest = omega (arith, length-padded n cs rest)

-- A buffer for the name, with a NUL at its end.
pub record IsBuffer (buf : List ℕ) : Type 0 where
  pub bytes : List ℕ
  pub room : length bytes ≡ 31
  pub ends : buf ≡ bytes ++ 0 ∷ []

-- The name that a buffer then holds.
pub record Holds (text : List ℕ) (buf : List ℕ) : Type 0 where
  pub size : length buf ≡ ssid_size
  pub text_is : c_string buf ≡ some (first 31 text)

pub copy_text-Holds :
    (text buf : List ℕ)
    → Free 0 text
    → IsBuffer buf
    → (name : List ℕ) × (copy_text 31 text buf ≡ some name) × Holds text name
copy_text-Holds text buf h b = (
  padded 31 text ++ 0 ∷ [],
  rw b.ends (copy_text-padded 31 text b.bytes (0 ∷ []) b.room),
  record { size = length-padded 31 text (0 ∷ []); text_is = c_string-padded 31 text [] h },
)
