-- ===== src/Crc16/Detect.antt =====
-- Which corruptions `crc16` detects: a step can be undone, since the low bytes of the table's entries
-- are all different.
use lib_uart_comm_protocol_l.Prelude.{
  ℕ, ◌+◌, ◌*◌, ◌/◌, ◌%◌, ◌^◌, ◌<◌, bit_xor, ◌≡◌, ◌≢◌, ◌⊎◌, inl, inr, refl, sym, ap, ◌∙◌, arith,
  List, [], ◌∷◌, ◌++◌, true, ◌==◌, ==_iff, ltb, ltb→lt, get_or, all_below, all_below_sound,
  bit_xor_fields, bit_xor-lt, bit_xor-injective, zero-bit_xor, bit_xor_comm,
}
use lib_uart_comm_protocol_l.Crc16.{crc16tab, crc16_update, crc16_loop, crc16}

abbrev entry : ℕ → ℕ
entry i = get_or crc16tab i 0

-- The index whose entry has a given low byte.
low_byte_index : List ℕ
low_byte_index =
    0 ∷ 35 ∷ 70 ∷ 101 ∷ 140 ∷ 175 ∷ 202 ∷ 233 ∷ 8 ∷ 43 ∷ 78 ∷ 109 ∷ 132 ∷ 167 ∷ 194 ∷ 225 ∷ 17 ∷ 50
    ∷ 87 ∷ 116 ∷ 157 ∷ 190 ∷ 219 ∷ 248 ∷ 25 ∷ 58 ∷ 95 ∷ 124 ∷ 149 ∷ 182 ∷ 211 ∷ 240 ∷ 34 ∷ 1 ∷ 100
    ∷ 71 ∷ 174 ∷ 141 ∷ 232 ∷ 203 ∷ 42 ∷ 9 ∷ 108 ∷ 79 ∷ 166 ∷ 133 ∷ 224 ∷ 195 ∷ 51 ∷ 16 ∷ 117 ∷ 86
    ∷ 191 ∷ 156 ∷ 249 ∷ 218 ∷ 59 ∷ 24 ∷ 125 ∷ 94 ∷ 183 ∷ 148 ∷ 241 ∷ 210 ∷ 68 ∷ 103 ∷ 2 ∷ 33 ∷ 200
    ∷ 235 ∷ 142 ∷ 173 ∷ 76 ∷ 111 ∷ 10 ∷ 41 ∷ 192 ∷ 227 ∷ 134 ∷ 165 ∷ 85 ∷ 118 ∷ 19 ∷ 48 ∷ 217 ∷ 250
    ∷ 159 ∷ 188 ∷ 93 ∷ 126 ∷ 27 ∷ 56 ∷ 209 ∷ 242 ∷ 151 ∷ 180 ∷ 102 ∷ 69 ∷ 32 ∷ 3 ∷ 234 ∷ 201 ∷ 172
    ∷ 143 ∷ 110 ∷ 77 ∷ 40 ∷ 11 ∷ 226 ∷ 193 ∷ 164 ∷ 135 ∷ 119 ∷ 84 ∷ 49 ∷ 18 ∷ 251 ∷ 216 ∷ 189 ∷ 158
    ∷ 127 ∷ 92 ∷ 57 ∷ 26 ∷ 243 ∷ 208 ∷ 181 ∷ 150 ∷ 136 ∷ 171 ∷ 206 ∷ 237 ∷ 4 ∷ 39 ∷ 66 ∷ 97 ∷ 128
    ∷ 163 ∷ 198 ∷ 229 ∷ 12 ∷ 47 ∷ 74 ∷ 105 ∷ 153 ∷ 186 ∷ 223 ∷ 252 ∷ 21 ∷ 54 ∷ 83 ∷ 112 ∷ 145 ∷ 178
    ∷ 215 ∷ 244 ∷ 29 ∷ 62 ∷ 91 ∷ 120 ∷ 170 ∷ 137 ∷ 236 ∷ 207 ∷ 38 ∷ 5 ∷ 96 ∷ 67 ∷ 162 ∷ 129 ∷ 228
    ∷ 199 ∷ 46 ∷ 13 ∷ 104 ∷ 75 ∷ 187 ∷ 152 ∷ 253 ∷ 222 ∷ 55 ∷ 20 ∷ 113 ∷ 82 ∷ 179 ∷ 144 ∷ 245 ∷ 214
    ∷ 63 ∷ 28 ∷ 121 ∷ 90 ∷ 204 ∷ 239 ∷ 138 ∷ 169 ∷ 64 ∷ 99 ∷ 6 ∷ 37 ∷ 196 ∷ 231 ∷ 130 ∷ 161 ∷ 72
    ∷ 107 ∷ 14 ∷ 45 ∷ 221 ∷ 254 ∷ 155 ∷ 184 ∷ 81 ∷ 114 ∷ 23 ∷ 52 ∷ 213 ∷ 246 ∷ 147 ∷ 176 ∷ 89 ∷ 122
    ∷ 31 ∷ 60 ∷ 238 ∷ 205 ∷ 168 ∷ 139 ∷ 98 ∷ 65 ∷ 36 ∷ 7 ∷ 230 ∷ 197 ∷ 160 ∷ 131 ∷ 106 ∷ 73 ∷ 44
    ∷ 15 ∷ 255 ∷ 220 ∷ 185 ∷ 154 ∷ 115 ∷ 80 ∷ 53 ∷ 22 ∷ 247 ∷ 212 ∷ 177 ∷ 146 ∷ 123 ∷ 88 ∷ 61 ∷ 30
    ∷ []

low_byte_table : all_below 256 (λ i. get_or low_byte_index (entry i % 256) 0 == i) ≡ true
unfolding all_below crc16tab low_byte_index
low_byte_table = refl

entry_table : all_below 256 (λ i. ltb (entry i) 65536) ≡ true
unfolding all_below crc16tab
entry_table = refl

found : (k : ℕ) → k < 256 → get_or low_byte_index (entry k % 256) 0 ≡ k
found k h = (==_iff _ k).0 (all_below_sound 256 _ k low_byte_table h)

entry_injective : (i j : ℕ) → i < 256 → j < 256 → entry i % 256 ≡ entry j % 256 → i ≡ j
entry_injective i j p q e = sym (found i p) ∙ ap (λ t. get_or low_byte_index t 0) e ∙ found j q

pub entry-lt : (i : ℕ) → i < 256 → entry i < 65536
entry-lt i h = ltb→lt _ _ (all_below_sound 256 _ i entry_table h)

-- The index that a step looks up.
abbrev pub index : ℕ → ℕ → ℕ
index crc byte = bit_xor (crc / 256) byte

pub index-lt : (crc byte : ℕ) → crc < 65536 → byte < 256 → index crc byte < 256
index-lt crc byte p q = bit_xor-lt 8 (crc / 256) byte (omega arith) q

-- A step by its two bytes: the table's low byte, and its high byte over the old low byte.
pub crc16_update_lem :
    (crc byte : ℕ)
    → crc < 65536
    → byte < 256
    → crc16_update crc byte
      ≡ bit_xor (crc % 256) (entry (index crc byte) / 256) * 256 + entry (index crc byte) % 256
unfolding crc16_update
crc16_update_lem crc byte p q =
    let i = index crc byte in
    let t = entry i in
    let h = t / 256 in
    let small : i < 256 = index-lt crc byte p q in
    let keep : i % 2 ^ 8 ≡ i = omega arith in
    let split : bit_xor (crc * 2 ^ 8) t ≡ bit_xor crc h * 256 + t % 256 =
      ground (arith, bit_xor_fields 8 crc h 0 (t % 256), zero-bit_xor (t % 256)) in
    let low : bit_xor crc h % 256 ≡ bit_xor (crc % 256) h = ground (
      arith,
      bit_xor_fields 8 (crc / 256) 0 (crc % 256) h,
      bit_xor-lt 8 (crc % 256) h,
      entry-lt i small,
    ) in
    rw (keep, split) (omega (arith, low, bit_xor-lt 8 (crc % 256) h, entry-lt i small))

pub crc16_update-lt : (crc byte : ℕ) → crc16_update crc byte < 65536
unfolding crc16_update
crc16_update-lt crc byte = omega arith

pub crc16_loop-lt : (crc : ℕ) (bytes : List ℕ) → crc < 65536 → crc16_loop crc bytes < 65536
unfolding crc16_loop
crc16_loop-lt crc [] h = h
crc16_loop-lt crc (b ∷ rest) h = crc16_loop-lt (crc16_update crc b) rest (crc16_update-lt crc b)

pub crc16_loop-append :
    (crc : ℕ) (xs ys : List ℕ) → crc16_loop crc (xs ++ ys) ≡ crc16_loop (crc16_loop crc xs) ys
unfolding crc16_loop
crc16_loop-append crc [] ys = refl
crc16_loop-append crc (x ∷ xs) ys = crc16_loop-append (crc16_update crc x) xs ys

-- Equal results come from equal low bytes and equal indices.
module _ (c d a b : ℕ) (hc : c < 65536) (hd : d < 65536) (ha : a < 256) (hb : b < 256)
    (same : crc16_update c a ≡ crc16_update d b) where
  same_index : index c a ≡ index d b
  same_index =
      entry_injective _ _ (index-lt c a hc ha) (index-lt d b hd hb)
        (omega (arith, crc16_update_lem c a hc ha, crc16_update_lem d b hd hb))

  same_low : c % 256 ≡ d % 256
  same_low =
      let h = entry (index c a) / 256 in
      let e : entry (index d b) ≡ entry (index c a) = ap (λ t. entry t) (sym same_index) in
      bit_xor-injective h (c % 256) (d % 256) (
        ground (
          arith,
          crc16_update_lem c a hc ha,
          crc16_update_lem d b hd hb,
          bit_xor_comm h (c % 256),
          bit_xor_comm h (d % 256),
          e,
        ))

-- From one value, different bytes lead to different values.
pub crc16_update-injective_byte :
    (c a b : ℕ) → c < 65536 → a < 256 → b < 256 → crc16_update c a ≡ crc16_update c b → a ≡ b
crc16_update-injective_byte c a b hc ha hb same =
    bit_xor-injective (c / 256) a b (same_index c c a b hc hc ha hb same)

-- From one byte, different values lead to different values.
pub crc16_update-injective :
    (c d a : ℕ) → c < 65536 → d < 65536 → a < 256 → crc16_update c a ≡ crc16_update d a → c ≡ d
crc16_update-injective c d a hc hd ha same =
    let high : c / 256 ≡ d / 256 =
      bit_xor-injective a (c / 256) (d / 256) (
        bit_xor_comm a (c / 256)
        ∙ same_index c d a a hc hd ha ha same
        ∙ bit_xor_comm (d / 256) a) in
    omega (arith, same_low c d a a hc hd ha ha same)

abbrev pub AllBytes : List ℕ → Type 0
AllBytes [] = Unit
AllBytes (x ∷ xs) = (x < 256) × AllBytes xs

pub crc16_loop-injective :
    (c d : ℕ) (rest : List ℕ)
    → c < 65536
    → d < 65536
    → AllBytes rest
    → crc16_loop c rest ≡ crc16_loop d rest
    → c ≡ d
unfolding crc16_loop
crc16_loop-injective c d [] hc hd h same = same
crc16_loop-injective c d (x ∷ xs) hc hd h same = crc16_update-injective c d x hc hd h.0 (
    crc16_loop-injective (crc16_update c x) (crc16_update d x) xs (crc16_update-lt c x)
      (crc16_update-lt d x) h.1 same)

-- Two bytes in a row, from one value: equal results come from equal bytes.
update_two-injective :
    (c a b a' b' : ℕ)
    → c < 65536
    → a < 256
    → b < 256
    → a' < 256
    → b' < 256
    → crc16_update (crc16_update c a) b ≡ crc16_update (crc16_update c a') b'
    → (a ≡ a') × (b ≡ b')
update_two-injective c a b a' b' hc ha hb ha' hb' same = (first, second)
  where
    d : ℕ
    d = crc16_update c a

    d' : ℕ
    d' = crc16_update c a'

    low : d % 256 ≡ d' % 256
    low = same_low d d' b b' (crc16_update-lt c a) (crc16_update-lt c a') hb hb' same

    first : a ≡ a'
    first = bit_xor-injective (c / 256) a a' (
        entry_injective _ _ (index-lt c a hc ha) (index-lt c a' hc ha')
          (omega (arith, low, crc16_update_lem c a hc ha, crc16_update_lem c a' hc ha')))

    second : b ≡ b'
    second =
        crc16_update-injective_byte d b b' (crc16_update-lt c a) hb hb'
          (same ∙ ap (λ t. crc16_update (crc16_update c t) b') (sym first))

-- If two messages that are the same but for two neighbouring bytes have the same CRC, so are those
-- bytes.
crc16_burst-injective :
    (pre : List ℕ) (a b a' b' : ℕ) (post : List ℕ)
    → a < 256
    → b < 256
    → a' < 256
    → b' < 256
    → AllBytes post
    → crc16 (pre ++ (a ∷ b ∷ post)) ≡ crc16 (pre ++ (a' ∷ b' ∷ post))
    → (a ≡ a') × (b ≡ b')
unfolding crc16 crc16_loop
crc16_burst-injective pre a b a' b' post ha hb ha' hb' h same =
    update_two-injective c a b a' b' hc ha hb ha' hb' (
      crc16_loop-injective _ _ post (crc16_update-lt _ b) (crc16_update-lt _ b') h (
        sym (crc16_loop-append 0 pre (a ∷ b ∷ post))
        ∙ same
        ∙ crc16_loop-append 0 pre (a' ∷ b' ∷ post)))
  where
    c : ℕ
    c = crc16_loop 0 pre

    hc : c < 65536
    hc = crc16_loop-lt 0 pre (omega arith)

-- Two messages that are the same but for two neighbouring bytes, of which at least one differs,
-- have different CRCs.
pub crc16_detects_burst :
    (pre : List ℕ) (a b a' b' : ℕ) (post : List ℕ)
    → a < 256
    → b < 256
    → a' < 256
    → b' < 256
    → AllBytes post
    → (a ≢ a') ⊎ (b ≢ b')
    → crc16 (pre ++ (a ∷ b ∷ post)) ≢ crc16 (pre ++ (a' ∷ b' ∷ post))
crc16_detects_burst pre a b a' b' post ha hb ha' hb' h (inl differ) same =
    differ (crc16_burst-injective pre a b a' b' post ha hb ha' hb' h same).0
crc16_detects_burst pre a b a' b' post ha hb ha' hb' h (inr differ) same =
    differ (crc16_burst-injective pre a b a' b' post ha hb ha' hb' h same).1

pub crc16-lt : (bytes : List ℕ) → crc16 bytes < 65536
unfolding crc16
crc16-lt bytes = crc16_loop-lt 0 bytes (omega arith)
