-- ===== src/Main/Program.antt =====
-- `main` of server/src/main.c, with the server that it runs.
use iot_monitoring_system.Base.{
  ℕ, zero, suc, ◌≡◌, ◌≢◌, refl, Option-cases, Bool-cases, inl, inr, List, [], ◌∷◌, ◌++◌, Option,
  none, some, Bool, true, false, Bytes, codes, pos, Doubles,
}
use iot_monitoring_system.SensorManager.{sensor_manager_init, sensor_manager_cleanup}
use iot_monitoring_system.AlertEngine.{cleared, alert_engine_init, alert_engine_cleanup}
use iot_monitoring_system.Logger.{Logger}
use iot_monitoring_system.Server.Dispatch.{Server}
use iot_monitoring_system.Server.Start.{Arrival, Setup, start_server, exit_failure}
use iot_monitoring_system.Server.Start.Balance.{is_usable, start_server_fails, start_server_serves}
use iot_monitoring_system.Main.{startup_engine}
use iot_monitoring_system.Main.Port.{port_of}

-- Where the program is: the exit status, `none` while the server runs; the shared state; what was
-- printed on stderr.
pub record Exit (F : Type 0) : Type 0 where
  pub status : Option ℕ
  pub server : Server F
  pub errors : Bytes

module _ {F : Type 0} ⦃d : Doubles F⦄ where
  -- After `start_server`: its status is passed on, behind the two cleanups.
  unfoldable pub finish : Option ℕ → Server F → Exit F
  finish none s = record { status = none; server = s; errors = [] }
  finish (some result) s = record {
    status = some result;
    server = record s {
      table = (sensor_manager_cleanup s.table).0;
      engine = alert_engine_cleanup.0;
    };
    errors = elim result [ zero ↦ [] | suc n ↦ codes "Server finished with errors.\n" ];
  }

  abbrev fail : Server F → Bytes → Exit F
  fail s message = record { status = some exit_failure; server = s; errors = message }

  -- From the two calls of `…_init` on. A failed start leaves no thread that could change the state.
  unfoldable pub with_port : ℕ → ℕ → Setup → List Arrival → Logger → Server F → Exit F
  with_port now port setup arrivals l s =
      let (table_result, table, table_log) = sensor_manager_init {F = F} in
      let (engine_result, engine, engine_log) = alert_engine_init {F = F} in
      elim table_result [
        | pos zero ↦ elim engine_result [
          | pos zero ↦
              finish (start_server setup port arrivals l).status
                (record s { table = table; engine = startup_engine now })
          | _ ↦
              fail (record s { table = table; engine = engine })
                (codes "Error: Could not initialize alert engine\n")
        ]
        | _ ↦
            fail (record s { table = table }) (codes "Error: Could not initialize sensor manager\n")
      ]

  -- `argv[0]` and the arguments behind it
  unfoldable pub main : Bytes → List Bytes → ℕ → Setup → List Arrival → Logger → Server F → Exit F
  main name (port_text ∷ log_path ∷ []) now setup arrivals l s = elim (port_of port_text) [
    | none ↦
        fail s (
          codes "Error: Invalid port (" ++ (port_text ++ codes "). Must be between 1 and 65535.\n"))
    | some port ↦ with_port now port setup arrivals l s
  ]
  main name args now setup arrivals l s =
      fail s (codes "Usage: " ++ (name ++ codes " <port> <logFile>\n"))

-- The port in the arguments, when there are two and the first is a port.
abbrev pub port_argument : List Bytes → Option ℕ
port_argument (port_text ∷ log_path ∷ []) = port_of port_text
port_argument args = none

module _ {F : Type 0} ⦃d : Doubles F⦄ where
  -- The shared state of an empty table and the engine of the start.
  abbrev pub ready : ℕ → Server F → Server F
  ready now s = record s { table = sensor_manager_init.1; engine = startup_engine now }

  -- What `main` ends with for the port in the arguments, where the server can start or not.
  abbrev pub Ends : Option ℕ → Bool → ℕ → Server F → Exit F → Type 0
  Ends none usable now s e = (e.status ≡ some 1) × (e.server ≡ s) × (e.errors ≢ [])
  Ends (some port) true now s e = (e.status ≡ none) × (e.server ≡ ready now s) × (e.errors ≡ [])
  Ends (some port) false now s e =
      (e.status ≡ some 1)
      × (e.server.table.sensor_count ≡ 0)
      × (e.server.engine ≡ cleared)
      × (e.errors ≢ [])

  with_port-Ends :
      (now port : ℕ) (setup : Setup) (arrivals : List Arrival) (l : Logger) (s : Server F)
      → Ends (some port) (is_usable setup) now s (with_port now port setup arrivals l s)
  unfolding with_port finish sensor_manager_init alert_engine_init sensor_manager_cleanup
      alert_engine_cleanup
  with_port-Ends now port setup arrivals l s = elim (Bool-cases (is_usable setup)) [
    | inl usable ↦
        let (status, logger, spawned, resources) =
          start_server_serves setup port arrivals l usable in
        rw (usable, status, with_port) (refl, refl, refl)
    | inr broken ↦
        let (status, logger, spawned, balanced) =
          start_server_fails setup port arrivals l (pos 0) broken in
        rw (broken, status, with_port) (refl, refl, refl, λ h. cc)
  ]

  -- With other than two arguments, or a first one that is no port, `main` prints a message and
  -- returns EXIT_FAILURE with the state untouched. Otherwise it serves with an empty table and the
  -- engine of the start, when the log, the socket, `bind` and `listen` all succeed; and when one of
  -- them fails it prints a message and returns EXIT_FAILURE with no sensor and a cleared engine.
  pub main-Ends :
      (name : Bytes) (args : List Bytes) (now : ℕ) (setup : Setup) (arrivals : List Arrival)
      (l : Logger) (s : Server F)
      → Ends (port_argument args) (is_usable setup) now s (main name args now setup arrivals l s)
  unfolding main
  main-Ends name [] now setup arrivals l s = (refl, refl, λ h. cc)
  main-Ends name (p ∷ []) now setup arrivals l s = (refl, refl, λ h. cc)
  main-Ends name (p ∷ q ∷ []) now setup arrivals l s = elim (Option-cases (port_of p)) [
    | inl bad ↦ rw (bad, main) (refl, refl, λ h. cc)
    | inr (port, good) ↦ rw (good, main) (with_port-Ends now port setup arrivals l s)
  ]
  main-Ends name (p ∷ q ∷ r ∷ rs) now setup arrivals l s = (refl, refl, λ h. cc)
