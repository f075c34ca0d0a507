-- ===== src/Lib.antt =====
-- The IoT monitoring server (the C program under server/). Sensors connect over TCP, register and
-- send measurements; operators log in and get the alerts. Each connection has a thread that receives
-- a message, parses it, works on state that all threads share, and sends a response.
--
-- The parts, the files that model them, and how the parts meet:
--   * Protocol: server/src/protocol.c and server/include/protocol.h. Protocol/Strtok is `strtok` as
--     `protocol_parse` calls it, over one array that each call cuts; Protocol/Parse is
--     `protocol_parse`, whose argument pointers are offsets in the array; Protocol/Reply has the
--     `protocol_build_…` functions over the 512 bytes of `resp_buf`; Protocol/Request is the form in
--     which the clients write a request, and Protocol/Interleaving the parse as the calls of `strtok`
--     of one thread among others.
--   * SensorManager: server/src/sensor_manager.c. `Table` is `sensors` and `sensor_count`; every
--     function keeps its name. SensorManager/Registry is the abstract table, a list of entries.
--   * AlertEngine: server/src/alert_engine.c. `Engine` is the thresholds and the history of alerts;
--     AlertEngine/Check has `add_active_alert` and `alert_engine_check_measurement`,
--     AlertEngine/Report the listing and `alert_engine_resolve_alert`. AlertEngine/Recent describes
--     the history abstractly, as the last hundred alerts, and AlertEngine/Recent/Crossing which
--     thresholds a measurement crosses.
--   * AuthClient: server/src/auth_client.c. What the hosts of the authentication service answer is a
--     parameter, `Network`.
--   * Logger: server/src/logger.c. `fopen` and the clock are parameters; Logger/Files follows the
--     file that is open and what is written on each stream, Logger/Entries the form of an entry. The
--     operations of the other parts return the calls that they make of the logger, as values.
--   * Server: server/src/server.c. Server/Operators is the registry of logged-in operators and
--     `broadcast_alert`; Server/Dispatch is the body of the loop of `handle_client`, one function
--     for each case of the `switch`, and calls the modules above as the code does; its children
--     follow whole requests, and Server/Dispatch/Effect the shared state under any message, against
--     the abstract one. Server/Sending is `send_complete_response`, with `send` as a parameter;
--     Server/Connection is `handle_client`, the life of one connection; Server/Start is
--     `start_server` with the loop that accepts connections. Server/Resources names the calls that
--     take and give back sockets, contexts and mutexes.
--   * Main: server/src/main.c. The thresholds that it registers; Main/Port is the port argument, and
--     Main/Program is `main`, up to the exit status. Runs puts the parts together: the shared state
--     from the start of the program, under the messages of clients and the ends of connections in any
--     order. Main/Startup follows the first measurement against the thresholds.
--   * Base: what these share. A `char` array is the list of its bytes and a string is read up to the
--     NUL; the functions of <string.h>, `strtol` and the bound of `snprintf` have their documented
--     meaning. The type `double` with its comparisons, `atof` and `%.2f` is a parameter, the record
--     `Doubles`, whose only law is that a formatted number has no NUL. `Tests` runs the model on
--     concrete inputs, with numbers for `double`.
--
-- Every function on shared state holds one mutex for its whole access and is one call; in
-- `alert_engine_register_threshold`, which only `main` calls, the test of the count stands before
-- the mutex, and in `logger_init` the end of the function stands behind it. Server/Calls lets the
-- calls of all threads interleave in any order, also within the handling of a message; the theorems
-- on what a message does take it without another thread between its calls. Server/Sharing is about
-- `resp_buf`, which the threads share without a mutex; a response is read there in one step,
-- although `send_complete_response` may read it over several calls of `send`. Protocol/Interleaving
-- is about the pointer that `strtok` keeps for all threads; elsewhere `protocol_parse` is one step.
-- A message is what one call of `recv` returns, as in the code. The values of `time` are arguments,
-- one for a request. Counters are natural numbers: each stays at most 100, so that an `int` does
-- not wrap. A descriptor or a result of a system call is an integer.
--
-- Bounds and fuel: the loop of `send_complete_response` has as fuel one more than the bytes of the
-- response, and each round sends one byte at least; the digits of `n` have fuel `n + 1`. The loop of
-- `start_server` never ends: it is a recursion on the connections that arrived so far, as the loop of
-- `handle_client` is one on the messages received. All other loops are recursions on a list.
--
-- Not modelled: the WIN32 branches, the texts of `perror`, the Python and Java programs beside the
-- server, and deployment files.
pub mod Base
pub mod Logger
pub mod Protocol
pub mod SensorManager
pub mod AlertEngine
pub mod AuthClient
pub mod Server
pub mod Main
pub mod Runs
pub mod Tests
