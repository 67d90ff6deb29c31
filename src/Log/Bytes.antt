-- ===== src/Log/Bytes.antt =====
-- Writes to the end of the buffer of utils/uni_log.c, and the text up to its NUL.
use lib_uart_comm_protocol_l.Prelude.{
  ℕ, suc, zero, ◌≤◌, ◌<◌, ◌≡◌, refl, sym, ap, ◌∙◌, arith, false, some, List, [], ◌∷◌, ◌++◌,
  append_assoc, ◌==◌, length, take, drop, set, length-take,
}
use lib_uart_comm_protocol_l.Prelude.Slices.{take-take}
use lib_uart_comm_protocol_l.NetHelper.Messages.{c_string, NoNul}
use lib_uart_comm_protocol_l.Log.{feed}

-- Writes to the last two bytes.
pub set_last_two :
    (n : ℕ) (buf : List ℕ) (a b : ℕ)
    → length buf ≡ suc (suc n)
    → set (set buf n a) (suc n) b ≡ take n buf ++ (a ∷ b ∷ [])
set_last_two zero (x ∷ y ∷ []) a b h = refl
set_last_two zero (x ∷ y ∷ z ∷ rest) a b h = absurd (omega arith)
set_last_two zero (x ∷ []) a b h = absurd (omega arith)
set_last_two n [] a b h = absurd (omega arith)
set_last_two (suc n) (x ∷ rest) a b h =
    ap (λ more. x ∷ more) (set_last_two n rest a b (omega arith))

pub set_last_but_one :
    (n : ℕ) (buf : List ℕ) (a : ℕ)
    → n < length buf
    → set buf n a ≡ take n buf ++ (a ∷ drop (suc n) buf)
set_last_but_one n [] a h = absurd (omega arith)
set_last_but_one zero (x ∷ rest) a h = refl
set_last_but_one (suc n) (x ∷ rest) a h =
    ap (λ more. x ∷ more) (set_last_but_one n rest a (omega arith))

pub c_string-NoNul : (text rest : List ℕ) → NoNul text → c_string (text ++ (0 ∷ rest)) ≡ some text
unfolding c_string
c_string-NoNul [] rest h = refl
c_string-NoNul (x ∷ text) rest h =
    let some_byte : (x == 0) ≡ false = ground (arith, h.0) in
    rw (some_byte, c_string-NoNul text rest h.1) refl

-- The buffer is this line and a NUL.
abbrev pub Fed : List ℕ → List ℕ → Type 0
Fed line buf = (rest : List ℕ) × (buf ≡ line ++ (0 ∷ rest))

-- The line for this text
abbrev pub cut_line : List ℕ → List ℕ
cut_line text = take 1022 text ++ (feed ∷ [])

-- The buffer has the text from its start to byte 1021, and the last two bytes are written.
pub last_two-Fed :
    (text buf : List ℕ)
    → length buf ≡ 1024
    → take 1022 buf ≡ take 1022 text
    → Fed (cut_line text) (set (set buf 1022 feed) 1023 0)
last_two-Fed text buf whole same = (
  [],
  set_last_two 1022 buf feed 0 whole
      ∙ ap (λ front. front ++ (feed ∷ 0 ∷ [])) same
      ∙ sym (append_assoc (take 1022 text) (feed ∷ []) (0 ∷ [])),
)

pub same_start :
    (text buf : List ℕ)
    → take (length (take 1023 text)) buf ≡ take 1023 text
    → 1023 ≤ length text
    → take 1022 buf ≡ take 1022 text
same_start text buf start h =
    let all : 1023 ≡ length (take 1023 text) = omega (arith, length-take 1023 text, h) in
    sym (take-take 1022 1023 buf (omega arith))
    ∙ ap (λ n. take 1022 (take n buf)) all
    ∙ ap (take 1022) start
    ∙ take-take 1022 1023 text (omega arith)
