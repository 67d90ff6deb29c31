-- ===== src/Log/Lines.antt =====
-- The buffer of utils/uni_log.c: one call of snprintf after the other adds its text, and what does not fit is
-- cut off.
use lib_uart_comm_protocol_l.Prelude.{
  ℕ, ◌+◌, ◌-◌, ◌≤◌, ◌≡◌, refl, sym, ap, ◌∙◌, arith, Bool, true, false, Option, some, List, [], ◌∷◌,
  ◌++◌, append-nil, append_assoc, ltb, ◌==◌, if◌then◌else◌, length, take, drop, memcpy, bind,
  length-append, length-take, length-drop, take_ge, take_append, take_of_length,
}
use native.Mathlib.Decide.{dec_le}
use lib_uart_comm_protocol_l.Prelude.Slices.{take_beyond, take_within}
use lib_uart_comm_protocol_l.Log.{Filled, log_buffer_len, snprintf, fill}

-- The buffer starts with the text so far, cut off where only one byte is left.
pub record Starts (text : List ℕ) (f : Filled) : Type 0 where
  pub taken : f.1 ≡ length text
  pub whole : length f.0 ≡ log_buffer_len
  pub start : take (length (take 1023 text)) f.0 ≡ take 1023 text

-- It also ends with a NUL behind that text.
abbrev pub Ended : List ℕ → List ℕ → Type 0
Ended text buf =
    (rest : List ℕ) × (buf ≡ take 1023 text ++ (0 ∷ rest)) × (length buf ≡ log_buffer_len)

pub Ended-Starts : (text : List ℕ) (buf : List ℕ) → Ended text buf → Starts text (buf, length text)
Ended-Starts text buf (rest, e, whole) = record {
  taken = refl;
  whole = whole;
  start = ap (take (length (take 1023 text))) e ∙ take_append _ (take 1023 text) (0 ∷ rest) refl;
}

length-memcpy :
    (dst : List ℕ) (off : ℕ) (src : List ℕ) (n : ℕ)
    → off + n ≤ length dst
    → n ≤ length src
    → length (memcpy dst off src n) ≡ length dst
length-memcpy dst off src n h k = omega (
  arith,
  length-append (take off dst) (take n src ++ drop n (drop off dst)),
  length-append (take n src) (drop n (drop off dst)),
  length-take off dst,
  length-take n src,
  length-drop n (drop off dst),
  length-drop off dst,
)

-- A call with a byte left or more.
pub snprintf-Ended :
    (t text : List ℕ) (buf : List ℕ) (len : ℕ)
    → Starts text (buf, len)
    → length text ≤ 1023
    → (buf' : List ℕ) × (snprintf t (buf, len) ≡ some (buf', length t)) × Ended (text ++ t) buf'
unfolding snprintf
snprintf-Ended t text buf len s h =
    let size : ltb log_buffer_len len ≡ false = ground (arith, s.taken) in
    let left : (log_buffer_len - len == 0) ≡ false = ground (arith, s.taken) in
    let kept = take (log_buffer_len - len - 1) t in
    let all : take 1023 text ≡ text = take_ge 1023 text h in
    let front : take len buf ≡ text =
      ap (λ n. take n buf) (s.taken ∙ ap length (sym all)) ∙ s.start ∙ all in
    let cut : take 1023 (text ++ t) ≡ text ++ kept =
      take_beyond 1023 (log_buffer_len - len - 1) text t (omega (arith, s.taken)) in
    let rest = drop (length kept + 1) (drop len buf) in
    let copied : take (length kept + 1) (kept ++ (0 ∷ [])) ≡ kept ++ (0 ∷ []) =
      take_of_length _ _ (sym (length-append kept (0 ∷ []))) in
    rw (size, left)
      (
        memcpy buf len (kept ++ (0 ∷ [])) (length kept + 1),
        refl,
        (
          rest,
          rw (front, copied, cut)
              (ap (λ more. text ++ more) (append_assoc kept (0 ∷ []) rest)
                ∙ sym (append_assoc text kept (0 ∷ rest))),
          length-memcpy buf len (kept ++ (0 ∷ [])) (length kept + 1)
                (omega (arith, s.taken, s.whole, length-take (log_buffer_len - len - 1) t))
                (omega (arith, length-append kept (0 ∷ [])))
              ∙ s.whole,
        ),
      )

-- A call with no byte left.
pub snprintf-full :
    (t text : List ℕ) (buf : List ℕ) (len : ℕ)
    → Starts text (buf, len)
    → length text ≡ 1024
    → (snprintf t (buf, len) ≡ some (buf, length t)) × Starts (text ++ t) (buf, len + length t)
unfolding snprintf
snprintf-full t text buf len s h =
    let size : ltb log_buffer_len len ≡ false = ground (arith, s.taken) in
    let full : (log_buffer_len - len == 0) ≡ true = ground (arith, s.taken) in
    let cut : take 1023 (text ++ t) ≡ take 1023 text = take_within 1023 text t (omega (arith, h)) in
    (
      rw (size, full) refl,
      record {
        taken = omega (arith, s.taken, length-append text t);
        whole = s.whole;
        start = rw cut s.start;
      },
    )

-- This step adds this text to the line.
abbrev pub Adds : (Filled → Option Filled) → List ℕ → Type 0
Adds step t =
    (text : List ℕ) (f : Filled)
    → Starts text f
    → length text + length t ≤ 1024
    → (f' : Filled) × (step f ≡ some f') × Starts (text ++ t) f'

pub fill-Adds : (t : List ℕ) → Adds (fill t) t
unfolding fill
fill-Adds t text (buf, len) s h = elim (dec_le (length text) 1023) [
  | yes fits ↦
      let (buf', done, (rest, e, whole)) = snprintf-Ended t text buf len s fits in
      let start = Ended-Starts (text ++ t) buf' (rest, e, whole) in
      (
        (buf', len + length t),
        rw done refl,
        record {
          taken = omega (arith, s.taken, length-append text t);
          whole = whole;
          start = start.start;
        },
      )
  | no full ↦
      let (done, starts) = snprintf-full t text buf len s (omega (arith, h, full)) in
      ((buf, len + length t), rw done refl, starts)
]

pub some-Adds : Adds (λ f. some f) []
some-Adds text f s h = (f, refl, rw (append-nil text) s)

pub if-Adds :
    (test : Bool) (step : Filled → Option Filled) (t : List ℕ)
    → Adds step t
    → Adds (λ f. if test then step f else some f) (if test then t else [])
if-Adds true step t h = h
if-Adds false step t h = some-Adds

pub bind-Adds :
    (step next : Filled → Option Filled) (a b : List ℕ)
    → Adds step a
    → Adds next b
    → Adds (λ f. bind (step f) next) (a ++ b)
bind-Adds step next a b h k text f s small =
    let total = length-append a b in
    let (f1, done1, s1) = h text f s (omega (arith, small, total)) in
    let (f2, done2, s2) = k (text ++ a) f1 s1 (omega (arith, small, total, length-append text a)) in
    (f2, rw done1 done2, rw (sym (append_assoc text a b)) s2)
