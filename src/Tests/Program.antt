-- ===== src/Tests/Program.antt =====
-- Tests of the logger, of the start of the server and of `main`.
use iot_monitoring_system.Base.{
  ℕ, ◌+◌, ◌≤◌, ◌≡◌, ◌↔◌, refl, [], ◌∷◌, List, some, none, Bytes, codes, arith, pos, true, false,
  decimal, logger_info, LogCall,
}
use iot_monitoring_system.Logger.{Logger, Moment, log_line, event_line}
use iot_monitoring_system.Logger.Files.{
  LoggerOp, starts, writes, stops, run, follow, text_on, write_all, run-follow, run-mirrors,
}
use iot_monitoring_system.Logger.Entries.{line_ends, event_entry_lines}
use iot_monitoring_system.Server.Dispatch.{Client}
use iot_monitoring_system.Server.Connection.{disconnected}
use iot_monitoring_system.Server.Resources.{count, opens, closes, allocates, frees, inits, destroys}
use iot_monitoring_system.Server.Start.{Arrival, interrupted, accepts, Setup, start_server}
use iot_monitoring_system.Server.Start.Balance.{
  Life, all_calls, abandoned, accept_loop_balance, is_usable, start_server_fails,
}
use iot_monitoring_system.Main.Port.{port_of}
use iot_monitoring_system.Main.Port.Numeral.{Spells, port_of_iff}
use iot_monitoring_system.Main.Program.{main, port_argument, Ends, main-Ends}
use iot_monitoring_system.Tests.{whole_numbers}
use iot_monitoring_system.Tests.Requests as Requests

abbrev noon : Moment
noon = record { stamp = some (codes "2026-01-01 12:00:00"); thread = 7 }

abbrev closed : Logger
closed = record { log_file = none }

abbrev ops : List LoggerOp
ops = starts (some 4) ∷ writes noon (logger_info (codes "up")) ∷ starts (some 5) ∷ stops ∷ []

run-follow_example : follow none (run closed ops).1 ≡ some (run closed ops).0.log_file
run-follow_example = run-follow closed ops

abbrev entries : List (Moment × LogCall)
entries = (noon, logger_info (codes "up")) ∷ []

run-mirrors_example :
    text_on (some 4) (run (record { log_file = some 4 }) (write_all entries)).1
    ≡ text_on none (run (record { log_file = some 4 }) (write_all entries)).1
run-mirrors_example = run-mirrors 4 entries

event_entry_lines_example :
    line_ends (
      log_line noon
        (codes "INFO")
        (event_line (some (codes "10.0.0.7")) 5000 (some (codes "PING")) (some (codes "PONG\r\n"))))
    ≡ line_ends (codes "INFO")
      + line_ends (codes "10.0.0.7")
      + line_ends (codes "PING")
      + line_ends (codes "PONG\r\n")
      + 1
unfolding decimal
event_entry_lines_example =
    event_entry_lines noon (codes "INFO") (codes "10.0.0.7") 5000 (codes "PING") (codes "PONG\r\n")
      refl (omega arith)

-- One client is served, and for another the thread cannot be created.
abbrev arrivals : List Arrival
arrivals =
    accepts (pos 8) (some (codes "10.0.0.7")) 5000 (some 3) true
    ∷ interrupted
    ∷ accepts (pos 9) none 5001 (some 4) false
    ∷ []

abbrev lives : Client → Life ℕ
lives client = record {
  timeout_set = true;
  messages = Requests.incoming;
  ending = disconnected;
  operators = Requests.server.operators;
}

accept_loop_balance_example :
    (count (opens (pos 8)) (all_calls lives arrivals)
      ≡ count (closes (pos 8)) (all_calls lives arrivals))
    × (count (allocates 4) (all_calls lives arrivals) ≡ count (frees 4) (all_calls lives arrivals))
    × (count (inits 4) (all_calls lives arrivals)
        ≡ count (destroys 4) (all_calls lives arrivals) + abandoned 4 arrivals)
accept_loop_balance_example = accept_loop_balance lives (pos 8) 4 arrivals

abbrev ready_setup : Setup
ready_setup = record {
  log_file = some 4;
  server_fd = pos 3;
  reuse_set = true;
  bound = true;
  listening = true;
}

-- The port is taken.
abbrev taken_setup : Setup
taken_setup = record ready_setup { bound = false }

start_server_fails_example :
    ((start_server taken_setup 8080 arrivals closed).status ≡ some 1)
    × ((start_server taken_setup 8080 arrivals closed).logger.log_file ≡ none)
    × ((start_server taken_setup 8080 arrivals closed).rounds.spawned ≡ [])
    × (count (opens (pos 3)) (start_server taken_setup 8080 arrivals closed).rounds.resources
        ≡ count (closes (pos 3)) (start_server taken_setup 8080 arrivals closed).rounds.resources)
start_server_fails_example = start_server_fails taken_setup 8080 arrivals closed (pos 3) refl

port_of_iff_example :
    (port_of (codes " +8080") ≡ some 8080)
    ↔ (Spells (codes " +8080") 8080 × (1 ≤ 8080) × (8080 ≤ 65535))
port_of_iff_example = port_of_iff (codes " +8080") 8080

abbrev args : List Bytes
args = codes "8080" ∷ codes "server.log" ∷ []

main-Ends_example :
    Ends
      (port_argument args)
      (is_usable taken_setup)
      7
      Requests.server
      (main (codes "server") args 7 taken_setup arrivals closed Requests.server)
main-Ends_example = main-Ends (codes "server") args 7 taken_setup arrivals closed Requests.server
