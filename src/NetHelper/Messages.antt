-- ===== src/NetHelper/Messages.antt =====
-- The messages of channel/uni_network_helper.h. An `int` is the number of its 32 bits, so -1 is the
-- largest. On the line it is its four bytes, the lowest first, as both machines hold it.
use mathlib.Core.Option
use lib_uart_comm_protocol_l.Prelude.{
  ℕ, ◌+◌, ◌*◌, ◌/◌, ◌%◌, ◌^◌, ◌<◌, ◌≡◌, ◌≢◌, refl, sym, arith, Bool, ◌&&◌, Option, none, some, List,
  [], ◌∷◌, ◌++◌, append-nil, true, length, take, take_all, leb, ltb, ap, ◌==◌, if◌then◌else◌,
}

-- A message: the fields of `CommPacket`, whose length is the length of the payload.
pub record Message : Type 0 where
  pub cmd : ℕ
  pub payload : List ℕ

abbrev pub minus_one : ℕ
minus_one = 0xffffffff

-- `0 < x` for an `int`
abbrev pub is_positive : ℕ → Bool
is_positive x = ltb 0 x && ltb x 0x80000000

unfoldable pub put_int : ℕ → List ℕ
put_int x = x % 2 ^ 8 ∷ x / 2 ^ 8 % 2 ^ 8 ∷ x / 2 ^ 16 % 2 ^ 8 ∷ x / 2 ^ 24 % 2 ^ 8 ∷ []

pub length-put_int : (x : ℕ) (rest : List ℕ) → length (put_int x ++ rest) ≡ length rest + 4
unfolding put_int
length-put_int x rest = omega arith

-- The `int` at the start of these bytes, and the bytes behind it.
pub read_int : List ℕ → Option (ℕ × List ℕ)
read_int (a ∷ b ∷ c ∷ d ∷ rest) = some (a + b * 2 ^ 8 + c * 2 ^ 16 + d * 2 ^ 24, rest)
read_int bytes = none

pub read_int-put_int :
    (x : ℕ) (rest : List ℕ) → x < 2 ^ 32 → read_int (put_int x ++ rest) ≡ some (x, rest)
unfolding read_int put_int
read_int-put_int x rest h =
    let same : x % 2 ^ 8
          + x / 2 ^ 8 % 2 ^ 8 * 2 ^ 8
          + x / 2 ^ 16 % 2 ^ 8 * 2 ^ 16
          + x / 2 ^ 24 % 2 ^ 8 * 2 ^ 24
        ≡ x =
      omega arith in
    ap (λ v. some (v, rest)) same

pub read_int-put_int_last : (x : ℕ) → x < 2 ^ 32 → read_int (put_int x) ≡ some (x, [])
read_int-put_int_last x h = rw (sym (append-nil (put_int x))) (read_int-put_int x [] h)

-- The first `n` of these bytes; `none` if there are fewer.
pub read_bytes : ℕ → List ℕ → Option (List ℕ)
read_bytes n bytes = if leb n (length bytes) then some (take n bytes) else none

pub read_bytes_all : (bytes : List ℕ) → read_bytes (length bytes) bytes ≡ some bytes
unfolding read_bytes
read_bytes_all bytes =
    let all : leb (length bytes) (length bytes) ≡ true = ground arith in rw (all, take_all bytes)

-- The text up to its NUL; `none` if there is no NUL to stop at.
unfoldable pub c_string : List ℕ → Option (List ℕ)
c_string [] = none
c_string (x ∷ rest) = if x == 0 then some [] else Option.map (λ text. x ∷ text) (c_string rest)

abbrev pub NoNul : List ℕ → Type 0
NoNul [] = Unit {0}
NoNul (x ∷ rest) = (x ≢ 0) × NoNul rest

pub c_string-append : (text : List ℕ) → NoNul text → c_string (text ++ (0 ∷ [])) ≡ some text
unfolding c_string
c_string-append [] h = refl
c_string-append (x ∷ rest) h = ground (arith, c_string-append rest h.1)

-- A number whose lowest byte is 0 reads as no text.
pub c_string-put_int :
    (x : ℕ) (rest : List ℕ) → x % 2 ^ 8 ≡ 0 → c_string (put_int x ++ rest) ≡ some []
unfolding c_string put_int
c_string-put_int x rest h =
    let zero_byte : (x % 2 ^ 8 == 0) ≡ true = ground (arith, h) in rw zero_byte refl
