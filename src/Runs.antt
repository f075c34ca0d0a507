-- ===== src/Runs.antt =====
-- The program from its start (server/src/main.c) on: the messages that clients send and the clients
-- that leave, in any order. Each is one step on the shared state; the threads of the clients take
-- their steps in some order, and a run is a list of them.
use iot_monitoring_system.Base.{ℕ, List, [], ◌∷◌, Bytes, ℤ, Doubles}
use iot_monitoring_system.SensorManager.{sensor_manager_init}
use iot_monitoring_system.SensorManager.Invariant as TableLaws
use iot_monitoring_system.AuthClient.{Network}
use iot_monitoring_system.Server.Operators.{no_operators, remove_operator}
use iot_monitoring_system.Server.Operators.Sessions.{no_operators-IsValid, remove_operator-IsValid}
use iot_monitoring_system.Server.Dispatch.{Server, Client, handle_message}
use iot_monitoring_system.Server.Dispatch.Invariant.{IsValid, handle_message-IsValid}
use iot_monitoring_system.Main.{startup_engine}
use iot_monitoring_system.Main.Startup.{startup_engine-IsValid}

-- A message that a client sent, with the time and the network that its handler finds; or the end of
-- a client's connection, where `handle_client` calls `remove_operator`.
pub data Event : Type 0 where
  message : ℕ → Network → Client → Bytes → ℤ → Event
  disconnects : Client → Event

module _ {F : Type 0} ⦃d : Doubles F⦄ where
  -- The shared state when `main` calls `start_server`.
  abbrev pub started : ℕ → Server F
  started now = record {
    table = sensor_manager_init.1;
    engine = startup_engine now;
    operators = no_operators;
  }

  unfoldable pub step : Server F → Event → Server F
  step s (message now net client buffer bytes_received) =
      (handle_message now net client buffer bytes_received s).server
  step s (disconnects client) = record s {
    operators = remove_operator client.client_fd s.operators;
  }

  unfoldable pub run : Server F → List Event → Server F
  run s [] = s
  run s (e ∷ es) = run (step s e) es

  started-IsValid : (now : ℕ) → IsValid (started now)
  started-IsValid now = record {
    table = TableLaws.init-IsValid F;
    engine = startup_engine-IsValid now;
    operators = no_operators-IsValid;
  }

  step-IsValid : (e : Event) {s : Server F} → IsValid s → IsValid (step s e)
  unfolding step
  step-IsValid (message now net client buffer bytes_received) v =
      handle_message-IsValid now net client buffer bytes_received v
  step-IsValid (disconnects client) v = record {
    table = v.table;
    engine = v.engine;
    operators = remove_operator-IsValid client.client_fd v.operators;
  }

  run-IsValid_from : (es : List Event) {s : Server F} → IsValid s → IsValid (run s es)
  unfolding run
  run-IsValid_from [] v = v
  run-IsValid_from (e ∷ es) v = run-IsValid_from es (step-IsValid e v)

  -- Every state that the server reaches from the start of the program is valid: after any messages
  -- of any clients and any ends of connections, in any order, at most 50 sensors, 100 thresholds, 100
  -- alerts and 100 operators are counted, within their arrays, every `char` array that the program
  -- reads as a string ends in a NUL, and a slot with a live descriptor has its mutex.
  pub run-IsValid : (now : ℕ) (es : List Event) → IsValid (run (started now) es)
  run-IsValid now es = run-IsValid_from es (started-IsValid now)
