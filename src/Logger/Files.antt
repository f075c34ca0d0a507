-- ===== src/Logger/Files.antt =====
-- The streams of server/src/logger.c: which are open, and what is written to them.
use iot_monitoring_system.Base.{
  ℕ, ◌≡◌, refl, ap, sym, ◌∙◌, List, [], ◌∷◌, ◌++◌, Option, none, some, Bytes, ◌==◌, if◌then◌else◌,
  LogCall, arith,
}
use iot_monitoring_system.Logger.{
  Logger, StreamCall, prints, opens, closes, Moment, print_line, logger_write, logger_write_event,
  logger_init, logger_close, perform,
}

-- The calls that the program makes of the logger.
pub data LoggerOp : Type 0 where
  starts : Option ℕ → LoggerOp
  writes : Moment → LogCall → LoggerOp
  stops : LoggerOp

unfoldable pub step : Logger → LoggerOp → Logger × List StreamCall
step l (starts opened) = let (r, l', calls) = logger_init opened l in (l', calls)
step l (writes m call) = (l, perform m call l)
step l stops = logger_close l

unfoldable pub run : Logger → List LoggerOp → Logger × List StreamCall
run l [] = (l, [])
run l (op ∷ ops) =
    let (l', calls) = step l op in let (end, later) = run l' ops in (end, calls ++ later)

-- What `<stdio.h>` allows, for the one file that the logger holds: a file is opened while none is,
-- and written and closed while it is open. The result is the file that is open at the end; the outer
-- `none` stands for a call that is not allowed.
abbrev pub follow : Option ℕ → List StreamCall → Option (Option ℕ)
follow held [] = some held
follow held (prints none text ∷ cs) = follow held cs
follow none (prints (some f) text ∷ cs) = none
follow (some g) (prints (some f) text ∷ cs) = if f == g then follow (some g) cs else none
follow none (opens f ∷ cs) = follow (some f) cs
follow (some g) (opens f ∷ cs) = none
follow none (closes f ∷ cs) = none
follow (some g) (closes f ∷ cs) = if f == g then follow none cs else none

follow-append :
    (held : Option ℕ) (cs ds : List StreamCall) {mid : Option ℕ}
    → follow held cs ≡ some mid
    → follow held (cs ++ ds) ≡ follow mid ds
follow-append held [] ds e = cc (e)
follow-append held (prints none text ∷ cs) ds e = follow-append held cs ds e
follow-append none (prints (some f) text ∷ cs) ds e = cc
follow-append (some g) (prints (some f) text ∷ cs) ds {mid} e =
    ground (arith, follow-append (some g) cs ds {mid = mid})
follow-append none (opens f ∷ cs) ds e = follow-append (some f) cs ds e
follow-append (some g) (opens f ∷ cs) ds e = cc
follow-append none (closes f ∷ cs) ds e = cc
follow-append (some g) (closes f ∷ cs) ds {mid} e =
    ground (arith, follow-append none cs ds {mid = mid})

follow-print_line :
    (line : Bytes) (held : Option ℕ) → follow held (print_line line held) ≡ some held
unfolding print_line
follow-print_line line none = refl
follow-print_line line (some f) = ground arith

-- A call of the logger's functions writes one line on each stream that is open.
perform-print_line :
    (m : Moment) (call : LogCall) (l : Logger)
    → (line : Bytes) × (perform m call l ≡ print_line line l.log_file)
unfolding perform logger_write logger_write_event
perform-print_line m (LogCall.logger_info message) l = (_, refl)
perform-print_line m (LogCall.logger_error message) l = (_, refl)
perform-print_line m (LogCall.logger_event level ip port message response) l = (_, refl)

follow-init :
    (opened held : Option ℕ)
    → let (r, l', calls) = logger_init opened (record { log_file = held }) in
      follow held calls ≡ some l'.log_file
unfolding logger_init
follow-init none none = refl
follow-init (some f) none = refl
follow-init none (some g) = ground arith
follow-init (some f) (some g) = ground arith

follow-close :
    (held : Option ℕ)
    → let (l', calls) = logger_close (record { log_file = held }) in
      follow held calls ≡ some l'.log_file
unfolding logger_close
follow-close none = refl
follow-close (some g) = ground arith

follow-step :
    (l : Logger) (op : LoggerOp)
    → let (l', calls) = step l op in follow l.log_file calls ≡ some l'.log_file
unfolding step
follow-step l (starts opened) = follow-init opened l.log_file
follow-step l (writes m call) =
    let (line, e) = perform-print_line m call l in rw e (follow-print_line line l.log_file)
follow-step l stops = follow-close l.log_file

-- Whatever calls the program makes of the logger, in any order and with any results of `fopen`, at
-- most one file is open at a time, every entry goes to a file that is open, and every file that was
-- opened is closed, or is the one that the logger still holds.
pub run-follow :
    (l : Logger) (ops : List LoggerOp)
    → let (end, calls) = run l ops in follow l.log_file calls ≡ some end.log_file
unfolding run
run-follow l [] = refl
run-follow l (op ∷ ops) =
    let (l', calls) = step l op in
    follow-append l.log_file calls (run l' ops).1 (follow-step l op) ∙ run-follow l' ops

-- What the calls write on a stream.
abbrev pub text_on : Option ℕ → List StreamCall → Bytes
text_on out [] = []
text_on none (prints none text ∷ cs) = text ++ text_on none cs
text_on none (prints (some f) text ∷ cs) = text_on none cs
text_on (some g) (prints none text ∷ cs) = text_on (some g) cs
text_on (some g) (prints (some f) text ∷ cs) =
    let rest = text_on (some g) cs in if f == g then text ++ rest else rest
text_on out (opens f ∷ cs) = text_on out cs
text_on out (closes f ∷ cs) = text_on out cs

-- Only writing, no opening or closing.
abbrev pub write_all : List (Moment × LogCall) → List LoggerOp
write_all [] = []
write_all ((m, call) ∷ es) = writes m call ∷ write_all es

text_on-print_line :
    (f : ℕ) (line : Bytes) (cs : List StreamCall)
    → (text_on none (print_line line (some f) ++ cs) ≡ line ++ text_on none cs)
      × (text_on (some f) (print_line line (some f) ++ cs) ≡ line ++ text_on (some f) cs)
unfolding print_line
text_on-print_line f line cs = ground arith

-- While a log file is open, it gets the same entries as the standard output, in the same order.
pub run-mirrors :
    (f : ℕ) (es : List (Moment × LogCall))
    → let calls = (run (record { log_file = some f }) (write_all es)).1 in
      text_on (some f) calls ≡ text_on none calls
unfolding run step
run-mirrors f [] = refl
run-mirrors f ((m, call) ∷ es) =
    let l : Logger = record { log_file = some f } in
    let (line, e) = perform-print_line m call l in
    let (out, file) = text_on-print_line f line (run l (write_all es)).1 in
    rw e (file ∙ ap (◌++◌ line) (run-mirrors f es) ∙ sym out)
