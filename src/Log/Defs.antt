-- ===== src/Log/Defs.antt =====
-- The functions of src/logger.c, over the circular buffer of src/util/cirbuf.h. The text of a message
-- is what `snprintf` would print with room enough; the clock, the format and the place in the source
-- have no part in the model otherwise.
use cserv.Prelude.{
  ℕ, zero, suc, ◌+◌, ◌-◌, Bool, true, false, Option, none, some, List, [], ◌∷◌, ◌++◌, length, take,
  drop, ltb, ◌==◌, if◌then◌else◌, codes,
}
use cserv.Util.Cirbuf.Defs.{Cirbuf, cirbuf_init, cirbuf_write, cirbuf_read}
use cserv.Conf.Load.{Result, returns, exits, str_equal}

pub data LogLevel : Type 0 where
  level_crit level_err level_warn level_info : LogLevel

-- the numbers of the levels
abbrev pub rank : LogLevel → ℕ
rank level_crit = 0
rank level_err = 1
rank level_warn = 2
rank level_info = 3

unfoldable pub log_str_level : List ℕ → Result LogLevel
unfolding str_equal
log_str_level level =
    if str_equal level (codes "CRIT")
    then returns level_crit
    else if str_equal level (codes "ERR")
    then returns level_err
    else if str_equal level (codes "WARN")
    then returns level_warn
    else if str_equal level (codes "INFO")
    then returns level_info
    else exits

-- the size of `buff` in `struct log_buff`
abbrev pub buff_size : ℕ
buff_size = 1016

-- `buff` has all its bytes
pub record LogBuff : Type 0 where
  pub len : ℕ
  pub buff : List ℕ

-- for an index outside of the array, which the queues do not have
abbrev pub blank : LogBuff
blank = record { len = 0; buff = [] }

pub record Logger : Type 0 where
  pub pid : ℕ
  pub need_init : Bool
  pub queue : Cirbuf LogBuff

-- The variables that write the log: the used part of `flush_page`, and the calls of `real_sys_write`,
-- in order.
pub record Flusher : Type 0 where
  pub logger_fd : ℕ
  pub flush_page : List ℕ
  pub written : List (List ℕ)

unfoldable pub log_flush : Flusher → Flusher
log_flush f = if length f.flush_page == 0 then f else record f {
  written = if ltb 0 f.logger_fd then f.written ++ f.flush_page ∷ [] else f.written;
  flush_page = [];
}

-- The consumer of a slot; after a read beyond `buff` nothing is known, which is `none`.
unfoldable pub log_read : ℕ → LogBuff → Option Flusher → Option Flusher
unfolding log_flush
log_read page_size buff none = none
log_read page_size buff (some f) =
    let f' = if ltb (page_size - length f.flush_page) buff.len then log_flush f else f in
    if ltb buff_size buff.len
    then none
    else some (record f' { flush_page = f'.flush_page ++ take buff.len buff.buff })

-- The producer: `snprintf` writes as much of the text as there is room for, with a NUL behind it, and
-- answers the length of the whole text.
unfoldable pub log_write : List ℕ → LogBuff → LogBuff
log_write text slot =
    let out = take (buff_size - 1) text in
    record { len = length text; buff = out ++ 0 ∷ drop (length out + 1) slot.buff }

-- the loop of `copy_to_cache`, with a bound for the number of rounds
unfoldable pub read_all : ℕ → ℕ → Cirbuf LogBuff → Option Flusher → Cirbuf LogBuff × Option Flusher
unfolding cirbuf_read log_read
read_all page_size zero queue f = (queue, f)
read_all page_size (suc fuel) queue f =
    let (more, queue', f') = cirbuf_read blank (log_read page_size) queue f in
    elim more [ false ↦ (queue', f') | true ↦ read_all page_size fuel queue' f' ]

unfoldable pub copy_to_cache : ℕ → Logger → Option Flusher → Logger × Option Flusher
unfolding read_all
copy_to_cache page_size log f =
    let r = read_all page_size log.queue.elem_count log.queue f in
    (record { pid = if log.need_init then 0 else log.pid; need_init = false; queue = r.0 }, r.1)

-- the loop of `log_scan_write`
unfoldable pub scan_loggers : ℕ → List Logger → Option Flusher → List Logger × Option Flusher
unfolding copy_to_cache
scan_loggers page_size [] f = ([], f)
scan_loggers page_size (log ∷ logs) f = elim (log.pid == 0) [
  | true ↦ let r = scan_loggers page_size logs f in (log ∷ r.0, r.1)
  | false ↦
      let c = copy_to_cache page_size log f in
      let r = scan_loggers page_size logs c.1 in (c.0 ∷ r.0, r.1)
]

abbrev pub flushed : Option Flusher → Option Flusher
flushed none = none
flushed (some f) = some (log_flush f)

unfoldable pub log_scan_write : ℕ → List Logger → Flusher → List Logger × Option Flusher
unfolding scan_loggers log_flush
log_scan_write page_size logs f = let r = scan_loggers page_size logs (some f) in (r.0, flushed r.1)

abbrev pub log_elem_count : ℕ
log_elem_count = 1024

-- the loop of `log_worker_alloc`; the number is `logger_id`, counted from `index`
unfoldable pub alloc_from : ℕ → ℕ → List Logger → Option (ℕ × List Logger)
unfolding cirbuf_init
alloc_from pid index [] = none
alloc_from pid index (log ∷ logs) = elim (log.pid == 0) [
  | true ↦ some (
    index,
    record { pid = pid; need_init = false; queue = cirbuf_init log.queue log_elem_count } ∷ logs,
  )
  | false ↦ elim (alloc_from pid (index + 1) logs) [
    | none ↦ none
    | some (logger_id, logs') ↦ some (logger_id, log ∷ logs')
  ]
]

-- `none` is the result -1
unfoldable pub log_worker_alloc : ℕ → List Logger → Option (ℕ × List Logger)
unfolding alloc_from
log_worker_alloc pid logs = alloc_from pid 0 logs

unfoldable pub log_worker_flush_and_reset : ℕ → List Logger → List Logger
log_worker_flush_and_reset pid [] = []
log_worker_flush_and_reset pid (log ∷ logs) =
    (if log.pid == pid then record log { need_init = true } else log)
    ∷ log_worker_flush_and_reset pid logs

-- `log_out` of a process whose logger this is
unfoldable pub log_out : LogLevel → LogLevel → List ℕ → Logger → Logger
unfolding cirbuf_write log_write
log_out log_level level text log =
    if ltb (rank log_level) (rank level)
    then log
    else record log { queue = (cirbuf_write blank (log_write text) log.queue).1 }

-- the loop of `log_init`; `elem` are the slots of the pages that it allocates
unfoldable pub init_loggers : List LogBuff → ℕ → List Logger
init_loggers elem zero = []
init_loggers elem (suc n) =
    record {
      pid = 0;
      need_init = false;
      queue = record { elem_count = 0; start = 0; end = 0; elem = elem };
    }
    ∷ init_loggers elem n

-- `log_init`, with the descriptor that `gen_logfile_fd` answers, when all allocations succeed
unfoldable pub log_init : ℕ → List LogBuff → ℕ → List ℕ → Result (LogLevel × Flusher × List Logger)
unfolding log_str_level init_loggers
log_init logger_fd elem g_worker_processes g_log_strlevel = elim (log_str_level g_log_strlevel) [
  | exits ↦ exits
  | returns level ↦ returns (
    level,
    record { logger_fd = logger_fd; flush_page = []; written = [] },
    init_loggers elem (g_worker_processes + 1),
  )
]
