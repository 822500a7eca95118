-- ===== src/Log.antt =====
-- src/kvs_log.c and src/kvs_log.h: messages to the standard output.
--
-- The time of day, its text up to the second (`strftime`), the rounding to milliseconds (`lrint`),
-- the text of the message (`vsnprintf`) and the success of allocations are arguments. Lengths are
-- taken not to overflow an `int`, and `write` to take all bytes.
pub mod Written
pub mod Tests
use ckv.Run.{Run, ok, fault, out_of_fuel, ◌>>=◌}
use ckv.Base.{
  ℕ, zero, suc, ◌+◌, ◌-◌, ◌/◌, ◌%◌, List, [], ◌∷◌, ◌++◌, length, take, replicate, Option, some,
  none, Bool, true, false, not, ◌&&◌, ltb, leb, ◌==◌, if◌then◌else◌,
}

-- `kvs_log_t`
pub record Log : Type 0 where
  pub level : ℕ
  pub prog : Option (List ℕ)
  pub flags : ℕ

-- `KVS_LOG_ATOMIC`
abbrev pub log_atomic : ℕ
log_atomic = 1

-- `KVS_DEBUG`, `KVS_INFO`, `KVS_WARN` and `KVS_ERROR`
abbrev pub kvs_debug : ℕ
kvs_debug = 2

abbrev pub kvs_info : ℕ
kvs_info = 4

abbrev pub kvs_warn : ℕ
kvs_warn = 8

abbrev pub kvs_error : ℕ
kvs_error = 16

-- `BUF_SIZE`
abbrev pub buf_size : ℕ
buf_size = 1024

-- `kvs_log_new`, for the success of `malloc`, `pthread_mutex_init` and `strdup`
unfoldable pub log_new : (memory mutex copy : Bool) → ℕ → Option (List ℕ) → ℕ → Option Log
log_new false mutex copy level prog flags = none
log_new true mutex copy level prog flags =
    if (flags == log_atomic) && not mutex
    then none
    else some (record { level = level; prog = if copy then prog else none; flags = flags })

-- `struct timeval`
pub record Timeval : Type 0 where
  pub tv_sec : ℕ
  pub tv_usec : ℕ

-- `%03d` of a number below 1000
abbrev pub three_digits : ℕ → List ℕ
three_digits n = (48 + n / 100) ∷ (48 + n / 10 % 10) ∷ (48 + n % 10) ∷ []

-- `kvs_log_time_add`: the text that it leaves in a title of `time_size` bytes, which is empty
-- before.
module _ (lrint : ℕ → ℕ) (strftime : ℕ → List ℕ) where
  unfoldable pub log_time_add : Option Timeval → (time_size : ℕ) → List ℕ
  log_time_add none time_size = []
  log_time_add (some tv) time_size =
      let millisec = lrint tv.tv_usec in
      let sec = if leb 1000 millisec then suc tv.tv_sec else tv.tv_sec in
      let rest = if leb 1000 millisec then millisec - 1000 else millisec in
      take (time_size - 1) (strftime sec ++ 46 ∷ three_digits rest)

-- `kvs_log_level2str`
unfoldable pub log_level2str : ℕ → List ℕ
log_level2str level =
    if level == kvs_debug
    then 68 ∷ 69 ∷ 66 ∷ 85 ∷ 71 ∷ []
    else if level == kvs_info
    then 73 ∷ 78 ∷ 70 ∷ 79 ∷ []
    else if level == kvs_warn
    then 87 ∷ 65 ∷ 82 ∷ 78 ∷ []
    else if level == kvs_error
    then 69 ∷ 82 ∷ 82 ∷ 79 ∷ 82 ∷ []
    else 85 ∷ 78 ∷ 75 ∷ 78 ∷ 79 ∷ 87 ∷ 78 ∷ []

-- `[%s] ` and `[%-5s] `
abbrev pub in_brackets : List ℕ → List ℕ
in_brackets s = 91 ∷ s ++ 93 ∷ 32 ∷ []

abbrev pub padded : List ℕ → List ℕ
padded s = s ++ replicate (5 - length s) 32

-- What the first `snprintf` of `kvs_log` prints.
unfoldable pub log_title : Log → (time : List ℕ) → ℕ → List ℕ
unfolding log_level2str
log_title log time level = elim log.prog [
  | some prog ↦ in_brackets prog ++ in_brackets time ++ in_brackets (padded (log_level2str level))
  | none ↦ in_brackets time ++ in_brackets (padded (log_level2str level))
]

-- The two calls of `snprintf` into memory of `size` bytes, and what they leave in it. A size that
-- is less than the length of the title becomes a huge number where `vsnprintf` takes it, which then
-- writes behind the memory.
unfoldable pub print_both : ℕ → (title text : List ℕ) → Run (List ℕ)
print_both size title text =
    if ltb size (length title)
    then fault
    else ok (take (size - 1) title ++ take (size - length title - 1) text)

-- The loop of `kvs_log`. `there` says whether `p` is no null pointer.
unfoldable pub log_loop : ℕ → (memory there : Bool) → ℕ → (title text : List ℕ) → Run (List ℕ)
unfolding print_both
log_loop zero memory there size title text = out_of_fuel
log_loop (suc f) memory there size title text =
    let total = length text + length title in
    let next = log_loop f memory memory (total + 1) title text in
    if not there
    then fault
    else (print_both size title text >>= λ p. if ltb total size then ok (take total p) else next)

-- `kvs_log`: the bytes that are written, or `none` for the result -1.
unfoldable pub kvs_log :
    ℕ → (memory : Bool) → Log → (time : List ℕ) → ℕ → (text : List ℕ) → Run (Option (List ℕ))
unfolding log_loop log_title
kvs_log f memory log time level text =
    if ltb level log.level
    then ok none
    else (log_loop f memory true buf_size (log_title log time level) text >>= λ bytes.
        ok (some bytes))
