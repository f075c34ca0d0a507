-- ===== src/Logger.antt =====
-- server/src/logger.c: the entries of the log, on the standard output and in the log file.
-- `fopen` and the clock are parameters. A call holds `g_logger_mutex` while it writes, so an entry
-- is not mixed with another.
pub mod Files
pub mod Entries
use iot_monitoring_system.Base.{
  ℕ, List, [], ◌∷◌, ◌++◌, Option, none, some, Bytes, codes, snprintf, decimal, ℤ, pos, negsuc,
  LogCall, logger_info, logger_error, logger_event,
}

-- `g_log_file`, NULL or a stream of `fopen`
pub record Logger : Type 0 where
  pub log_file : Option ℕ

-- A print and the `fflush` behind it, on stdout or on the log file; `fopen` and `fclose`.
pub data StreamCall : Type 0 where
  prints : Option ℕ → Bytes → StreamCall
  opens closes : ℕ → StreamCall

-- What a thread finds: the text of `strftime`, which returns 0 for `none`, and its `pthread_self`.
pub record Moment : Type 0 where
  pub stamp : Option Bytes
  pub thread : ℕ

abbrev pub timestamp : Option Bytes → Bytes
timestamp none = codes "0000-00-00 00:00:00"
timestamp (some text) = text

-- "[%s] [%s][Thread %lu] %s\n"
unfoldable pub log_line : Moment → Bytes → Bytes → Bytes
log_line m level message =
    b'['
    ∷ (timestamp m.stamp
        ++ (codes "] ["
            ++ (level
                ++ (codes "][Thread "
                    ++ (decimal m.thread ++ (codes "] " ++ (message ++ b'\n' ∷ [])))))))

-- stdout first, then the file when it is open
unfoldable pub print_line : Bytes → Option ℕ → List StreamCall
print_line line none = prints none line ∷ []
print_line line (some f) = prints none line ∷ prints (some f) line ∷ []

unfoldable pub logger_write : Moment → Bytes → Bytes → Logger → List StreamCall
logger_write m level message l = print_line (log_line m level message) l.log_file

abbrev pub text_or : Bytes → Option Bytes → Bytes
text_or default none = default
text_or default (some text) = text

-- "IP=%s Port=%d Message=%s Response=%s" into `line[1536]`
unfoldable pub event_line : Option Bytes → ℕ → Option Bytes → Option Bytes → Bytes
event_line ip port message response = snprintf 1536 (
    codes "IP="
    ++ (text_or (codes "unknown") ip
        ++ (codes " Port="
            ++ (decimal port
                ++ (codes " Message="
                    ++ (text_or [] message ++ (codes " Response=" ++ text_or [] response)))))))

unfoldable pub logger_write_event :
    Moment → Bytes → Option Bytes → ℕ → Option Bytes → Option Bytes → Logger → List StreamCall
logger_write_event m level ip port message response l =
    print_line (log_line m level (event_line ip port message response)) l.log_file

-- `opened` is what `fopen(log_path, "a")` returns. A file that is open is closed before.
unfoldable pub logger_init : Option ℕ → Logger → ℤ × Logger × List StreamCall
logger_init opened l =
    let close_old : List StreamCall = elim l.log_file [ none ↦ [] | some f ↦ closes f ∷ [] ] in
    elim opened [
      | none ↦ (negsuc 0, record { log_file = none }, close_old)
      | some f ↦ (pos 0, record { log_file = some f }, close_old ++ opens f ∷ [])
    ]

unfoldable pub logger_close : Logger → Logger × List StreamCall
logger_close l =
    (record { log_file = none }, elim l.log_file [ none ↦ [] | some f ↦ closes f ∷ [] ])

-- The three functions that write, as the program calls them.
unfoldable pub perform : Moment → LogCall → Logger → List StreamCall
perform m (logger_info message) l = logger_write m (codes "INFO") message l
perform m (logger_error message) l = logger_write m (codes "ERROR") message l
perform m (logger_event level ip port message response) l =
    logger_write_event m level (some ip) port (some message) (some response) l
