-- ===== src/Crc16/Tests.antt =====
-- Runs of utils/uni_crc16.c on concrete messages.
use lib_uart_comm_protocol_l.Prelude.{◌≡◌, ◌≢◌, inl, refl, arith, [], ◌∷◌}
use lib_uart_comm_protocol_l.Crc16.{crc16tab, crc16_update, crc16_loop, crc16}
use lib_uart_comm_protocol_l.Crc16.Detect.{crc16_detects_burst}
use lib_uart_comm_protocol_l.Crc16.Xmodem.{xmodem, crc16-eq-xmodem}

-- The check value of CRC-16/XMODEM: the CRC of "123456789".
check_value : crc16 (0x31 ∷ 0x32 ∷ 0x33 ∷ 0x34 ∷ 0x35 ∷ 0x36 ∷ 0x37 ∷ 0x38 ∷ 0x39 ∷ []) ≡ 0x31c3
unfolding crc16 crc16_loop crc16_update crc16tab
check_value = refl

crc16_detects_burst_example : crc16 (9 ∷ 5 ∷ 6 ∷ 7 ∷ []) ≢ crc16 (9 ∷ 4 ∷ 6 ∷ 7 ∷ [])
crc16_detects_burst_example =
    crc16_detects_burst (9 ∷ []) 5 6 4 6 (7 ∷ []) (omega arith) (omega arith) (omega arith)
      (omega arith) (omega arith, tt) (inl (omega arith))

crc16-eq-xmodem_example : crc16 (0x31 ∷ 0x32 ∷ []) ≡ xmodem 0 (0x31 ∷ 0x32 ∷ [])
crc16-eq-xmodem_example = crc16-eq-xmodem (0x31 ∷ 0x32 ∷ []) (omega arith, (omega arith, tt))
