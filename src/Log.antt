-- ===== src/Log.antt =====
-- utils/uni_log.c: a line of text is put together in a buffer of fixed size, printed, and saved to a file.
-- Texts are lists of bytes without their NUL. What the C library formats from numbers and from the
-- caller's arguments is a parameter, and formatting does not fail. The lock of the file is not modelled.
-- `none` is a fault: a negative size for snprintf, or a text without its end.
pub mod Lines
pub mod Bytes
pub mod Ending
pub mod Write
mod Tests
use lib_uart_comm_protocol_l.Prelude.{
  ℕ, ◌+◌, ◌-◌, min, Bool, true, false, not, ◌&&◌, Option, none, some, List, [], ◌∷◌, ◌++◌, ltb, leb,
  ◌==◌, if◌then◌else◌, length, take, drop, set, memcpy, bind,
}
use lib_uart_comm_protocol_l.Prelude.Int.{ℤ, pos, negsuc}
use lib_uart_comm_protocol_l.NetHelper.Messages.{c_string}

pub data LogLevel : Type 0 where
  n_log_none n_log_error n_log_warn n_log_track n_log_debug n_log_raw n_log_all : LogLevel

-- A level's number, and one more, as `N_LOG_NONE` is -1
pub level_number : LogLevel → ℕ
level_number n_log_none = 0
level_number n_log_error = 1
level_number n_log_warn = 2
level_number n_log_track = 3
level_number n_log_debug = 4
level_number n_log_raw = 5
level_number n_log_all = 6

pub record LogConfig : Type 0 where
  pub enable_time : Bool
  pub enable_thread_id : Bool
  pub enable_function_line : Bool
  pub enable_color : Bool
  pub enable_file : Bool
  pub set_level : LogLevel

-- `g_log_config` and the descriptor of `g_log_file`, with all that was printed and all that was written to the file.
pub record Log : Type 0 where
  pub config : LogConfig
  pub fd : ℤ
  pub printed : List ℕ
  pub saved : List ℕ

-- What the C library formats: the time, the thread's number, and the line's number.
pub record Texts : Type 0 where
  pub now : List ℕ
  pub thread_id : List ℕ
  pub line : List ℕ

-- The arguments of `LogWrite`, with the text that `fmt` and what follows it give.
pub record Entry : Type 0 where
  pub level : LogLevel
  pub tags : List ℕ
  pub function : List ℕ
  pub message : List ℕ

abbrev pub log_buffer_len : ℕ
log_buffer_len = 1024

-- The newline.
abbrev pub feed : ℕ
feed = 10

-- A buffer, and how much of it is taken: `buf` and `len` of `_log_assemble`.
abbrev pub Filled : Type 0
Filled = List ℕ × ℕ

-- "\033[0m\033[4?;33m[?]\033[0m" or "[?]"
pub bracketed : Bool → ℕ → ℕ → List ℕ
bracketed color digit letter =
    let plain = 91 ∷ letter ∷ 93 ∷ [] in
    if color
    then (27 ∷ 91 ∷ 48 ∷ 109 ∷ 27 ∷ 91 ∷ 52 ∷ digit ∷ 59 ∷ 51 ∷ 51 ∷ 109 ∷ [])
      ++ (plain ++ (27 ∷ 91 ∷ 48 ∷ 109 ∷ []))
    else plain

-- `_level_tostring`
pub level_tostring : LogConfig → LogLevel → List ℕ
unfolding bracketed
level_tostring config n_log_error = bracketed config.enable_color 49 69
level_tostring config n_log_debug = bracketed config.enable_color 55 68
level_tostring config n_log_track = bracketed config.enable_color 50 84
level_tostring config n_log_warn = bracketed config.enable_color 49 87
level_tostring config _ = 91 ∷ 78 ∷ 47 ∷ 65 ∷ 93 ∷ []

-- `snprintf` into what is left of the buffer: all but the last byte of it for the text, and a NUL. It returns the
-- text's whole length.
unfoldable pub snprintf : List ℕ → Filled → Option Filled
snprintf text (buf, len) =
    let size = log_buffer_len - len in
    let kept = take (size - 1) text in
    if ltb log_buffer_len len
    then none
    else some (
      (if size == 0 then buf else memcpy buf len (kept ++ (0 ∷ [])) (length kept + 1)),
      length text,
    )

-- `len +=` what a `_fill_` function returns.
unfoldable pub fill : List ℕ → Filled → Option Filled
unfolding snprintf
fill text (buf, len) = bind (snprintf text (buf, len)) λ (buf', n). some (buf', len + n)

-- `_fill_log_level`
unfoldable pub fill_log_level : LogConfig → LogLevel → Filled → Option Filled
unfolding fill level_tostring
fill_log_level config n_log_debug f = fill (level_tostring config n_log_debug ++ (32 ∷ [])) f
fill_log_level config n_log_track f = fill (level_tostring config n_log_track ++ (32 ∷ [])) f
fill_log_level config n_log_warn f = fill (level_tostring config n_log_warn ++ (32 ∷ [])) f
fill_log_level config n_log_error f = fill (level_tostring config n_log_error ++ (32 ∷ [])) f
fill_log_level config _ f = some f

-- `_fill_time` and `_fill_thread_id`
unfoldable pub fill_time : LogConfig → Texts → Filled → Option Filled
unfolding fill
fill_time config texts f = if not config.enable_time then some f else fill texts.now f

unfoldable pub fill_thread_id : LogConfig → Texts → Filled → Option Filled
unfolding fill
fill_thread_id config texts f =
    if not config.enable_thread_id then some f else fill texts.thread_id f

-- `_fill_tag`: "<%s>"
unfoldable pub fill_tag : List ℕ → Filled → Option Filled
unfolding fill
fill_tag tags f = fill (60 ∷ (tags ++ (62 ∷ []))) f

-- `_fill_function_line`: "%s:%d->"
unfoldable pub fill_function_line : LogConfig → Texts → List ℕ → Filled → Option Filled
unfolding fill
fill_function_line config texts function f =
    if config.enable_function_line
    then fill (function ++ (58 ∷ (texts.line ++ (45 ∷ 62 ∷ [])))) f
    else some f

-- `strncat` of the newline to the text at `buf + len`.
unfoldable pub strncat_feed : List ℕ → ℕ → Option (List ℕ)
unfolding c_string
strncat_feed buf len = bind (c_string (drop len buf)) λ held.
    let at = len + length held in
    if leb (at + 2) (length buf) then some (memcpy buf at (feed ∷ 0 ∷ []) 2) else none

-- `_fill_customer_info`. Its `buf[len - 2]` and `buf[len - 1]` are the last two bytes of the whole buffer.
unfoldable pub fill_customer_info : List ℕ → Bool → Filled → Option (List ℕ)
unfolding snprintf strncat_feed
fill_customer_info message append_feed_line (buf, len) =
    bind (snprintf message (buf, len)) λ (buf', n).
      let size = log_buffer_len - len in
      let remain_len = size - min n size in
      let fed = if append_feed_line then set buf' (len + size - 2) feed else buf' in
      if remain_len == 0
      then some (set fed (len + size - 1) 0)
      else if remain_len == 1
      then some fed
      else if append_feed_line
      then strncat_feed buf' len
      else some buf'

pub is_raw : LogLevel → Bool
is_raw n_log_raw = true
is_raw _ = false

-- The part of `_log_assemble` in front of the message.
unfoldable pub fill_prefix : LogConfig → Texts → Entry → Filled → Option Filled
unfolding fill_log_level fill_time fill_thread_id fill_tag fill_function_line
fill_prefix config texts entry f = bind (fill_log_level config entry.level f) λ f1.
    bind (fill_time config texts f1) λ f2.
      bind (fill_thread_id config texts f2)
        λ f3. bind (fill_tag entry.tags f3) λ f4. fill_function_line config texts entry.function f4

-- `_log_assemble`, on a buffer with any bytes in it
unfoldable pub log_assemble : LogConfig → Texts → Entry → List ℕ → Option (List ℕ)
unfolding is_raw fill_prefix fill_customer_info
log_assemble config texts entry buf =
    bind
      (if not (is_raw entry.level) then fill_prefix config texts entry (buf, 0) else some (buf, 0))
      λ f. fill_customer_info entry.message (not (is_raw entry.level)) f

-- `_save_log_2_file`, with a write that writes all
unfoldable pub save_log_2_file : List ℕ → Log → Log
save_log_2_file bytes s = elim s.fd [
  | pos n ↦ if ltb 0 n && ltb 0 (length bytes) then record s { saved = s.saved ++ bytes } else s
  | negsuc n ↦ s
]

-- `LogWrite` and `_sync_write_process`
unfoldable pub log_write : Texts → Entry → List ℕ → Log → Option Log
unfolding log_assemble c_string save_log_2_file
log_write texts entry buf s = bind (log_assemble s.config texts entry buf) λ buf'.
    bind (c_string buf') λ text.
      some
        (save_log_2_file (take (length text + 1) buf') (record s { printed = s.printed ++ text }))

-- `LogLevelValid`
unfoldable pub log_level_valid : LogLevel → Log → Bool
unfolding level_number
log_level_valid level s = leb (level_number level) (level_number s.config.set_level)

-- The macro `LOG`
unfoldable pub log : Texts → Entry → List ℕ → Log → Option Log
unfolding log_level_valid log_write
log texts entry buf s =
    if log_level_valid entry.level s then log_write texts entry buf s else some s

-- `LogLevelSet`
pub log_level_set : LogLevel → Log → ℤ × Log
log_level_set level s = (pos 0, record s { config = record s.config { set_level = level } })

-- `LogInitialize` with `_open_save_fd`, where `open` gives `opened`
pub log_initialize : ℤ → LogConfig → Log → ℤ × Log
log_initialize opened config s =
    let configured = record s { config = config } in
    (pos 0, (if config.enable_file then record configured { fd = opened } else configured))

-- `LogFinalize`, which leaves the file open
pub log_finalize : Log → ℤ × Log
log_finalize s = (pos 0, s)
