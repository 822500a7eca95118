-- ===== src/Log/Tests.antt =====
-- Runs of src/kvs_log.c.
use ckv.Run.{ok, fault}
use ckv.Log.{
  Log, kvs_log, log_new, log_time_add, log_title, kvs_info, kvs_debug, kvs_error, buf_size,
}
use ckv.Log.Written.{kvs_log-lem}
use ckv.Base.{
  replicate, [], ◌∷◌, ◌++◌, length, ◌≡◌, refl, some, none, true, false, ◌/◌, ◌+◌, ◌||◌, ltb,
  if◌then◌else◌, arith,
}

-- A program called `a`.
abbrev log : Log
log = record { level = kvs_info; prog = some (97 ∷ []); flags = 0 }

-- `[a] [t] [ERROR] b`
error_line :
    kvs_log 2 false log (116 ∷ []) kvs_error (98 ∷ [])
    ≡ ok (
        some (
          91 ∷ 97 ∷ 93 ∷ 32 ∷ 91 ∷ 116 ∷ 93 ∷ 32 ∷ 91 ∷ 69 ∷ 82 ∷ 82 ∷ 79 ∷ 82 ∷ 93 ∷ 32 ∷ 98 ∷ []))
unfolding kvs_log replicate
error_line = refl

debug_dropped : kvs_log 2 true log (116 ∷ []) kvs_debug (98 ∷ []) ≡ ok none
unfolding kvs_log
debug_dropped = refl

-- A time that is rounded up to the next second: `.000`.
next_second :
    log_time_add
      (λ usec. (usec + 500) / 1000)
      (λ sec. sec ∷ [])
      (some (record { tv_sec = 7; tv_usec = 999600 }))
      64
    ≡ 8 ∷ 46 ∷ 48 ∷ 48 ∷ 48 ∷ []
unfolding log_time_add
next_second = refl

no_mutex : log_new true false true kvs_info none 1 ≡ none
unfolding log_new
no_mutex = refl

kvs_log-lem_example : kvs_log 2 false log (116 ∷ []) kvs_error (98 ∷ []) ≡ (
    if ltb kvs_error log.level
    then ok none
    else if ltb buf_size (length (log_title log (116 ∷ []) kvs_error))
    then fault
    else if false || ltb (1 + length (log_title log (116 ∷ []) kvs_error)) buf_size
    then ok (some (log_title log (116 ∷ []) kvs_error ++ 98 ∷ []))
    else fault)
kvs_log-lem_example = kvs_log-lem 2 false log (116 ∷ []) kvs_error (98 ∷ []) (omega arith)
