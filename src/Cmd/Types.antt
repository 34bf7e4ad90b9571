-- ===== src/Cmd/Types.antt =====
-- The enumerations and structures of fw/inc/haierctrl/drivers/heatpump.h and
-- fw/drivers/heatpump/haier_cmd.h, and the results of the functions over them.
use haier_controller.Prelude.{ℕ, zero, suc, ℤ, pos, negsuc, Bool, Option, none, some}

-- What an `int` result stands for: 0, a negated errno constant, or what a library function returned.
pub data Code : Type 0 where
  success einval etimedout enodev enotsock : Code
  library : ℤ → Code

-- The result of a library call, handed on.
abbrev pub of_library : ℤ → Code
of_library (pos zero) = Code.success
of_library (pos (suc n)) = library (pos (suc n))
of_library (negsuc n) = library (negsuc n)

-- A call that writes through a pointer `A *out`: its code, and what the pointer then refers to. A
-- NULL pointer is `none`. The outer `none` is behaviour that C leaves undefined, such as a read
-- outside an array.
abbrev pub Reply : Type 0 → Type 0
Reply A = Option (Code × Option A)

abbrev pub reply : {A : Type 0} → A → Reply A
reply a = some (Code.success, some a)

abbrev pub refused : {A : Type 0} → Option A → Reply A
refused out = some (Code.einval, out)

infixl 5 ◌>>=◌
abbrev pub ◌>>=◌ : {A B : Type 0} → Option A → (A → Option B) → Option B
none >>= f = none
some a >>= f = f a

pub data HeatpumpState : Type 0 where
  on off cooling heating dhw cool_dhw heat_dhw invalid : HeatpumpState

pub data HeatpumpMode : Type 0 where
  eco quiet turbo invalid mode_none cool heat : HeatpumpMode

pub data HeatpumpThreeway : Type 0 where
  off dhw ch antifreeze defrost invalid : HeatpumpThreeway

pub record HeatpumpStatus : Type 0 where
  pub is_on : Bool
  pub has_tank : Bool
  pub heat_mode : HeatpumpMode

pub record ArchErrors : Type 0 where
  pub err1 : ℕ
  pub err2 : ℕ
  pub err3 : ℕ

pub record FansInfo : Type 0 where
  pub rpm0 : ℕ
  pub rpm1 : ℕ

-- The structures whose fields are floats, over the type of floats.
pub record CompressorInfo (Float : Type 0) : Type 0 where
  pub fset : Float
  pub fact : Float
  pub current : Float
  pub voltage : Float
  pub temp : Float

pub record PdPsInfo (Float : Type 0) : Type 0 where
  pub pd_set : Float
  pub pd_act : Float
  pub ps_set : Float
  pub ps_act : Float

pub record TdTsInfo (Float : Type 0) : Type 0 where
  pub td : Float
  pub ts : Float

pub record TiToInfo (Float : Type 0) : Type 0 where
  pub ti : Float
  pub to : Float

pub record TsatInfo (Float : Type 0) : Type 0 where
  pub tsat_target : Float
  pub tsat_act : Float
