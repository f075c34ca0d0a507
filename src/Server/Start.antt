-- ===== src/Server/Start.antt =====
-- `start_server` of server/src/server.c. What the system calls return is a parameter: `Setup` for
-- the part before the loop, an `Arrival` for each round of the loop.
pub mod Balance
use iot_monitoring_system.Base.{
  ℕ, zero, List, [], ◌∷◌, ◌++◌, Option, none, some, Bool, Bytes, codes, snprintf, decimal, ℤ, pos,
  negsuc, LogCall, logger_info, logger_error, logger_event, if◌then◌else◌,
}
use iot_monitoring_system.Logger.{Logger, logger_init, logger_close, text_or}
use iot_monitoring_system.Server.Dispatch.{Client}
use iot_monitoring_system.Server.Resources.{
  Resource, opens_socket, closes_socket, allocates_context, frees_context, inits_mutex,
}

-- `accept` fails, with EINTR or another error; or it returns a descriptor, and then `inet_ntop`
-- returns a text or NULL, `malloc` a context or NULL, and `pthread_create` succeeds or not.
pub data Arrival : Type 0 where
  interrupted accept_failed : Arrival
  accepts : ℤ → Option Bytes → ℕ → Option ℕ → Bool → Arrival

-- What one or more rounds do: the calls on resources, the log, and the clients whose threads start.
pub record Rounds : Type 0 where
  pub resources : List Resource
  pub log : List LogCall
  pub spawned : List Client

unfoldable pub accept_round : Arrival → Rounds
accept_round interrupted = record { resources = []; log = []; spawned = [] }
accept_round accept_failed = record {
  resources = [];
  log = logger_error (codes "Network error accepting client; server continues") ∷ [];
  spawned = [];
}
accept_round (accepts client_fd address port context created) =
    let client_ip = snprintf 16 (text_or (codes "unknown") address) in
    let incoming = logger_event (codes "INFO") client_ip port (codes "Incoming connection") [] in
    elim context [
      | none ↦ record {
        resources = opens_socket client_fd ∷ closes_socket client_fd ∷ [];
        log = incoming ∷ logger_error (codes "Error allocating memory for client") ∷ [];
        spawned = [];
      }
      | some m ↦
          if created
          then record {
            resources = opens_socket client_fd ∷ allocates_context m ∷ inits_mutex m ∷ [];
            log = incoming ∷ [];
            spawned = record { client_fd = client_fd; ip = client_ip; port = port; mutex = m } ∷ [];
          }
          else record {
            resources =
                opens_socket client_fd
                ∷ allocates_context m
                ∷ inits_mutex m
                ∷ closes_socket client_fd
                ∷ frees_context m
                ∷ [];
            log = incoming ∷ logger_error (codes "Error creating thread") ∷ [];
            spawned = [];
          }
    ]

-- `while (1)`, over the arrivals so far
unfoldable pub accept_loop : List Arrival → Rounds
accept_loop [] = record { resources = []; log = []; spawned = [] }
accept_loop (a ∷ as') =
    let r = accept_round a in
    let rest = accept_loop as' in
    record {
      resources = r.resources ++ rest.resources;
      log = r.log ++ rest.log;
      spawned = r.spawned ++ rest.spawned;
    }

-- What `fopen`, `socket`, `setsockopt`, `bind` and `listen` return.
pub record Setup : Type 0 where
  pub log_file : Option ℕ
  pub server_fd : ℤ
  pub reuse_set : Bool
  pub bound : Bool
  pub listening : Bool

-- What the call did so far: `none` as the status means that it is in the loop, which it never
-- leaves.
pub record Started : Type 0 where
  pub status : Option ℕ
  pub logger : Logger
  pub rounds : Rounds

abbrev pub exit_failure : ℕ
exit_failure = 1

-- The end of the error paths: the log is closed behind the last entry.
abbrev pub give_up : Logger → List Resource → List LogCall → Started
give_up l resources log = record {
  status = some exit_failure;
  logger = (logger_close l).0;
  rounds = record { resources = resources; log = log; spawned = [] };
}

-- "Server listening on port %d" into `message[256]`
abbrev pub listening_log : ℕ → LogCall
listening_log port = logger_info (snprintf 256 (codes "Server listening on port " ++ decimal port))

-- From `socket` on, with the socket's descriptor.
unfoldable pub serve : Setup → ℤ → ℕ → List Arrival → Logger → Started
serve s server_fd port arrivals l =
    let reuse : List LogCall =
      if s.reuse_set then [] else logger_error (codes "Failed to configure SO_REUSEADDR") ∷ [] in
    let opened_and_closed = opens_socket server_fd ∷ closes_socket server_fd ∷ [] in
    if s.bound
    then (if s.listening
        then (let r = accept_loop arrivals in
            record {
              status = none;
              logger = l;
              rounds = record r {
                resources = opens_socket server_fd ∷ r.resources;
                log = reuse ++ (listening_log port ∷ r.log);
              };
            })
        else give_up l opened_and_closed
            (reuse ++ logger_error (codes "Server listen failed") ∷ []))
    else give_up l opened_and_closed (reuse ++ logger_error (codes "Server bind failed") ∷ [])

unfoldable pub start_server : Setup → ℕ → List Arrival → Logger → Started
unfolding serve
start_server s port arrivals l =
    let (result, l', calls) = logger_init s.log_file l in
    elim result [
      | pos zero ↦ elim s.server_fd [
        | pos fd ↦ serve s (pos fd) port arrivals l'
        | negsuc n ↦ give_up l' [] (logger_error (codes "Failed to create server socket") ∷ [])
      ]
      | _ ↦ record {
        status = some exit_failure;
        logger = l';
        rounds = record { resources = []; log = []; spawned = [] };
      }
    ]
