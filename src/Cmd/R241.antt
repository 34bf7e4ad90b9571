-- ===== src/Cmd/R241.antt =====
-- The getters of haier_cmd.c over the block of 22 registers from 241 on.
pub mod Frame
pub mod Laws
pub mod Safe
use haier_controller.Prelude.{
  ℕ, ◌*◌, pos, List, Option, Bool, true, ◌||◌, if◌then◌else◌, ◌!=◌, is_none, get_elem?, bit_and,
  bit_or, u16, ◌<<◌, ◌>>◌,
}
use haier_controller.Floats.{Floats}
use haier_controller.Cmd.Types.{
  Reply, reply, refused, ◌>>=◌, ArchErrors, CompressorInfo, FansInfo, PdPsInfo, TdTsInfo, TsatInfo,
}
use haier_controller.Cmd.Bytes.{high_byte, low_byte, low12, high12, signed12}

pub get_arch_errors : List ℕ → ℕ → Option ArchErrors → Reply ArchErrors
get_arch_errors regs count err = if count != 22 || is_none err then refused err else do
  r19 ← get_elem? regs 19
  r20 ← get_elem? regs 20
  reply (record { err1 = high_byte r19; err2 = low_byte r19; err3 = high_byte r20 })

pub get_eev_level : List ℕ → ℕ → Option ℕ → Reply ℕ
get_eev_level regs count eev =
    if count != 22 || is_none eev then refused eev else do r ← get_elem? regs 5; reply (high_byte r)

pub get_fans_rpm : List ℕ → ℕ → Option FansInfo → Reply FansInfo
get_fans_rpm regs count fans = if count != 22 || is_none fans then refused fans else do
  r3 ← get_elem? regs 3
  r4 ← get_elem? regs 4
  reply (record { rpm0 = u16 (u16 (bit_and r3 0xff) * 5); rpm1 = u16 (u16 (r4 >> 8) * 5) })

pub get_last_error : List ℕ → ℕ → Option ℕ → Reply ℕ
get_last_error regs count err =
    if count != 22 || is_none err then refused err else do r ← get_elem? regs 0; reply (low_byte r)

-- `raw_12bit` of get_tdef, from the top nibble of one register and the high byte of the next.
unfoldable pub tdef_raw : ℕ → ℕ → ℕ
tdef_raw r12 r13 =
    let msb = bit_and (r12 >> 12) 0x0f in let lsb = bit_and (r13 >> 8) 0xff in bit_or (msb << 8) lsb

module _ (F : Floats) where
  open F use {Float, of_int, literal, mul, div}

  pub get_comp_info : List ℕ → ℕ → Option (CompressorInfo Float) → Reply (CompressorInfo Float)
  get_comp_info regs count comp = if count != 22 || is_none comp then refused comp else do
    r2 ← get_elem? regs 2
    r3 ← get_elem? regs 3
    r15 ← get_elem? regs 15
    r14 ← get_elem? regs 14
    reply (record {
      fact = of_int (pos (low_byte r2));
      fset = of_int (pos (high_byte r3));
      current = div (of_int (pos (high_byte r15))) (literal 5 0);
      voltage = mul (of_int (pos (low_byte r15))) (literal 4 0);
      temp = div (of_int (pos (low_byte r14))) (literal 10 0);
    })

  pub get_firmware_version : List ℕ → ℕ → Option Float → Reply Float
  get_firmware_version regs count ver =
      if count != 22 || is_none ver
      then refused ver
      else do r ← get_elem? regs 18; reply (div (of_int (pos (high_byte r))) (literal 10 0))

  pub get_pd_ps_info : List ℕ → ℕ → Option (PdPsInfo Float) → Reply (PdPsInfo Float)
  get_pd_ps_info regs count pdps = if count != 22 || is_none pdps then refused pdps else do
    r5 ← get_elem? regs 5
    r6 ← get_elem? regs 6
    r8 ← get_elem? regs 8
    reply (record {
      pd_set = mul (of_int (pos (low_byte r5))) (literal 0 2);
      pd_act = mul (of_int (pos (high_byte r6))) (literal 0 2);
      ps_set = mul (of_int (pos (high_byte r8))) (literal 0 2);
      ps_act = mul (of_int (pos (low_byte r8))) (literal 0 2);
    })

  pub get_tao : List ℕ → ℕ → Option Float → Reply Float
  get_tao regs count tao_out = if count != 22 || is_none tao_out then refused tao_out else do
    r ← get_elem? regs 12
    reply (div (of_int (signed12 (bit_and r 0x0fff))) (literal 10 0))

  pub get_tdef : List ℕ → ℕ → Option Float → Reply Float
  get_tdef regs count tdef_out = if count != 22 || is_none tdef_out then refused tdef_out else do
    r12 ← get_elem? regs 12
    r13 ← get_elem? regs 13
    reply (div (of_int (signed12 (tdef_raw r12 r13))) (literal 10 0))

  pub get_td_ts_info : List ℕ → ℕ → Option (TdTsInfo Float) → Reply (TdTsInfo Float)
  get_td_ts_info regs count tdts = if count != 22 || is_none tdts then refused tdts else do
    r10 ← get_elem? regs 10
    r11 ← get_elem? regs 11
    reply (record {
      td = div (of_int (signed12 (low12 (low_byte r10) (high_byte r11)))) (literal 10 0);
      ts = div (of_int (signed12 (high12 (low_byte r10) (low_byte r11)))) (literal 10 0);
    })

  pub get_tsat_pd_info : List ℕ → ℕ → Option (TsatInfo Float) → Reply (TsatInfo Float)
  get_tsat_pd_info regs count tsat = if count != 22 || is_none tsat then refused tsat else do
    r6 ← get_elem? regs 6
    r7 ← get_elem? regs 7
    reply (record {
      tsat_target = div (of_int (signed12 (low12 (low_byte r6) (high_byte r7)))) (literal 10 0);
      tsat_act = div (of_int (signed12 (high12 (low_byte r6) (low_byte r7)))) (literal 10 0);
    })

  pub get_tsat_ps_info : List ℕ → ℕ → Option (TsatInfo Float) → Reply (TsatInfo Float)
  get_tsat_ps_info regs count tsat = if count != 22 || is_none tsat then refused tsat else do
    r9 ← get_elem? regs 9
    r10 ← get_elem? regs 10
    reply (record {
      tsat_target = div (of_int (signed12 (low12 (high_byte r9) (low_byte r9)))) (literal 10 0);
      tsat_act = div (of_int (signed12 (high12 (high_byte r9) (high_byte r10)))) (literal 10 0);
    })
