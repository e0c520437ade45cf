-- ===== src/Tests/Crc.antt =====
-- Runs of the CRC.
use pxbee_open_close.Prelude.{◌≡◌, refl, [], ◌∷◌, arith}
use pxbee_open_close.Prelude.Bits.{Bytes}
use pxbee_open_close.Util.Crc16.{crc16_calc, crc16_table}
use pxbee_open_close.Util.Crc16.Register.{register, crc16_calc_lem}

abbrev digits : Bytes
digits = 49 ∷ 50 ∷ 51 ∷ []

crc16_calc_lem_example : crc16_calc digits 0 ≡ register digits 0
crc16_calc_lem_example =
    crc16_calc_lem digits 0 (omega arith, (omega arith, (omega arith, tt))) (omega arith)

-- the check value of the CRC called XMODEM
check_value : crc16_calc (49 ∷ 50 ∷ 51 ∷ 52 ∷ 53 ∷ 54 ∷ 55 ∷ 56 ∷ 57 ∷ []) 0 ≡ 0x31c3
unfolding crc16_calc crc16_table
check_value = refl
