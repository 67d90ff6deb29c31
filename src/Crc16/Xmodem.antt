-- ===== src/Crc16/Xmodem.antt =====
-- The table-driven `crc16` against the definition of CRC-16/XMODEM by bits: shift left, and on a carry
-- subtract the polynomial x^16 + x^12 + x^5 + 1.
use lib_uart_comm_protocol_l.Prelude.{
  ℕ, zero, suc, ◌+◌, ◌-◌, ◌*◌, ◌/◌, ◌%◌, ◌^◌, ◌≤◌, ◌<◌, bit_xor, ◌≡◌, refl, sym, ap, ◌∙◌, arith,
  List, [], ◌∷◌, true, ◌==◌, ==_iff, ltb, if◌then◌else◌, get_or, all_below, all_below_sound,
  bit_xor_fields, bit_xor-lt, zero-bit_xor, bit_xor_comm, bit_xor_assoc, bit_xor_step,
}
use native.Mathlib.Nat.{pow-suc, one-le-pow}
use native.Mathlib.Decide.{dec_lt}
use lib_uart_comm_protocol_l.Crc16.{crc16tab, crc16_update, crc16_loop, crc16}
use lib_uart_comm_protocol_l.Crc16.Detect.{
  AllBytes, index, index-lt, crc16_update_lem, crc16_update-lt,
}

-- One bit: the register holds 16 bits.
pub shift_bit : ℕ → ℕ
shift_bit r = if ltb r 32768 then r * 2 else bit_xor (r * 2 - 65536) 0x1021

pub shift_bits : ℕ → ℕ → ℕ
shift_bits zero r = r
shift_bits (suc k) r = shift_bits k (shift_bit r)

-- A byte enters at the top of the register.
pub xmodem : ℕ → List ℕ → ℕ
xmodem r [] = r
xmodem r (byte ∷ rest) = xmodem (shift_bits 8 (bit_xor r (byte * 256))) rest

table : all_below 256 (λ i. shift_bits 8 (i * 256) == get_or crc16tab i 0) ≡ true
unfolding all_below crc16tab shift_bits shift_bit
table = refl

shift_bit-lt : (r : ℕ) → r < 65536 → shift_bit r < 65536
unfolding shift_bit
shift_bit-lt r h = ground (arith, bit_xor-lt 16 (r * 2 - 65536) 0x1021)

xor_double : (a b : ℕ) → bit_xor (a * 2) (b * 2) ≡ bit_xor a b * 2
xor_double a b = ground (arith, bit_xor_step (a * 2) (b * 2))

-- A number below the top bit passes through the shift unchanged.
shift_bit-xor :
    (r l : ℕ) → r < 65536 → l < 32768 → shift_bit (bit_xor r l) ≡ bit_xor (shift_bit r) (l * 2)
unfolding shift_bit
shift_bit-xor r l hr hl = elim (dec_lt r 32768) [
  | yes p ↦ ground (arith, bit_xor-lt 15 r l, xor_double r l)
  | no p ↦
      let m = r % 32768 in
      let top : bit_xor r l ≡ 32768 + bit_xor m l =
        ground (arith, bit_xor_fields 15 1 0 m l, bit_xor_comm 1 0, zero-bit_xor 1) in
      ground (
        arith,
        top,
        bit_xor-lt 15 m l,
        xor_double m l,
        bit_xor_assoc (m * 2) (l * 2) 0x1021,
        bit_xor_comm (l * 2) 0x1021,
        bit_xor_assoc (m * 2) 0x1021 (l * 2),
      )
]

shift_bits-xor :
    (k r l : ℕ)
    → r < 65536
    → l * 2 ^ k < 65536
    → shift_bits k (bit_xor r l) ≡ bit_xor (shift_bits k r) (l * 2 ^ k)
unfolding shift_bits
shift_bits-xor zero r l hr hl = ground arith
shift_bits-xor (suc k) r l hr hl =
    let e : l * 2 ^ suc k ≡ l * 2 * 2 ^ k = grind (arith, pow-suc 2 k) in
    let one : 1 ≤ 2 ^ k = one-le-pow k 2 (omega arith) in
    let small : l < 32768 = grind arith in
    rw (shift_bit-xor r l hr small) (
      shift_bits-xor k (shift_bit r) (l * 2) (shift_bit-lt r hr) (omega arith)
      ∙ ap (λ t. bit_xor (shift_bits k (shift_bit r)) t) (sym e))

-- One byte through the table is eight bits through the register.
crc16_update-eq-shift_bits :
    (crc byte : ℕ)
    → crc < 65536
    → byte < 256
    → crc16_update crc byte ≡ shift_bits 8 (bit_xor crc (byte * 256))
crc16_update-eq-shift_bits crc byte p q =
    let i = index crc byte in
    let t = get_or crc16tab i 0 in
    let low = crc % 256 in
    let small : i < 256 = index-lt crc byte p q in
    let enters : bit_xor crc (byte * 256) ≡ bit_xor (i * 256) low = ground (
      arith,
      bit_xor_fields 8 (crc / 256) byte low 0,
      bit_xor_fields 8 i 0 0 low,
      bit_xor_comm low 0,
      zero-bit_xor low,
      bit_xor_comm i 0,
      zero-bit_xor i,
    ) in
    let looked_up : shift_bits 8 (i * 256) ≡ t =
      (==_iff _ t).0 (all_below_sound 256 _ i table small) in
    let top_down : bit_xor t (low * 256) ≡ bit_xor low (t / 256) * 256 + t % 256 = ground (
      arith,
      bit_xor_fields 8 (t / 256) low (t % 256) 0,
      bit_xor_comm (t % 256) 0,
      zero-bit_xor (t % 256),
      bit_xor_comm (t / 256) low,
    ) in
    rw (enters, shift_bits-xor 8 (i * 256) low (omega arith) (omega arith), looked_up, top_down)
      (crc16_update_lem crc byte p q)

crc16_loop-eq-xmodem :
    (r : ℕ) (bytes : List ℕ) → r < 65536 → AllBytes bytes → crc16_loop r bytes ≡ xmodem r bytes
unfolding crc16_loop xmodem
crc16_loop-eq-xmodem r [] h bs = refl
crc16_loop-eq-xmodem r (b ∷ rest) h bs =
    rw (← crc16_update-eq-shift_bits r b h bs.0)
      (crc16_loop-eq-xmodem (crc16_update r b) rest (crc16_update-lt r b) bs.1)

-- The table-driven crc16 equals CRC-16/XMODEM computed bit by bit, on every list of bytes.
pub crc16-eq-xmodem : (bytes : List ℕ) → AllBytes bytes → crc16 bytes ≡ xmodem 0 bytes
unfolding crc16
crc16-eq-xmodem bytes h = crc16_loop-eq-xmodem 0 bytes (omega arith) h
