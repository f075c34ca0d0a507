-- ===== src/Server/Start/Balance.antt =====
-- What `start_server` (server/src/server.c) and the threads that it starts take and give back.
use iot_monitoring_system.Base.{
  ℕ, ◌+◌, ◌≡◌, refl, List, [], ◌∷◌, ◌++◌, none, some, Bool, true, false, ℤ, pos, negsuc, Doubles,
  arith, ◌==◌, if◌then◌else◌, ◌&&◌,
}
use iot_monitoring_system.Logger.{Logger, logger_init, logger_close}
use iot_monitoring_system.Server.Dispatch.{Client}
use iot_monitoring_system.Server.Operators.{Operators}
use iot_monitoring_system.Server.Connection.{Incoming, Ending, handle_client}
use iot_monitoring_system.Server.Resources.{
  Resource, opens_socket, opens, closes, allocates, frees, inits, destroys, count, count-append,
}
use iot_monitoring_system.Server.Start.{
  Arrival, interrupted, accept_failed, accepts, Setup, accept_round, accept_loop, serve,
  start_server,
}

-- What the thread of a client meets: whether the timeout was set, the messages, how they end, and
-- the operators at its end.
pub record Life (F : Type 0) : Type 0 where
  pub timeout_set : Bool
  pub messages : List (Incoming F)
  pub ending : Ending
  pub operators : Operators

-- The arrivals for which `pthread_create` failed, with the context `m`.
abbrev pub abandoned : ℕ → List Arrival → ℕ
abandoned m [] = 0
abandoned m (accepts fd address port (some c) false ∷ as') =
    (if c == m then 1 else 0) + abandoned m as'
abandoned m (a ∷ as') = abandoned m as'

module _ {F : Type 0} ⦃d : Doubles F⦄ (lives : Client → Life F) where
  -- The resource calls of the threads of some clients, up to their ends.
  pub thread_calls : List Client → List Resource
  thread_calls [] = []
  thread_calls (c ∷ cs) =
      let l = lives c in
      (handle_client c l.timeout_set l.messages l.ending l.operators).resources ++ thread_calls cs

  thread_calls-append :
      (p : Resource → Bool) (xs ys : List Client)
      → count p (thread_calls (xs ++ ys)) ≡ count p (thread_calls xs) + count p (thread_calls ys)
  unfolding thread_calls
  thread_calls-append p [] ys = omega arith
  thread_calls-append p (c ∷ cs) ys =
      let l = lives c in
      let own = (handle_client c l.timeout_set l.messages l.ending l.operators).resources in
      omega (
        arith,
        count-append p own (thread_calls (cs ++ ys)),
        count-append p own (thread_calls cs),
        thread_calls-append p cs ys,
      )

  -- All the calls on resources, of the loop and of the threads.
  abbrev pub all_calls : List Arrival → List Resource
  all_calls as' = (accept_loop as').resources ++ thread_calls (accept_loop as').spawned

  abbrev round_calls : Arrival → List Resource
  round_calls a = (accept_round a).resources ++ thread_calls (accept_round a).spawned

  all_calls-cons :
      (p : Resource → Bool) (a : Arrival) (as' : List Arrival)
      → count p (all_calls (a ∷ as')) ≡ count p (round_calls a) + count p (all_calls as')
  unfolding accept_loop
  all_calls-cons p a as' =
      let r = accept_round a in
      let rest = accept_loop as' in
      omega (
        arith,
        count-append p (r.resources ++ rest.resources) (thread_calls (r.spawned ++ rest.spawned)),
        count-append p r.resources rest.resources,
        thread_calls-append p r.spawned rest.spawned,
        count-append p r.resources (thread_calls r.spawned),
        count-append p rest.resources (thread_calls rest.spawned),
      )

  module _ (fd : ℤ) (m : ℕ) where
    round_balance :
        (a : Arrival)
        → (count (opens fd) (round_calls a) ≡ count (closes fd) (round_calls a))
          × (count (allocates m) (round_calls a) ≡ count (frees m) (round_calls a))
          × (count (inits m) (round_calls a)
              ≡ count (destroys m) (round_calls a) + abandoned m (a ∷ []))
    unfolding accept_round handle_client thread_calls
    round_balance interrupted = (refl, refl, refl)
    round_balance accept_failed = (refl, refl, refl)
    round_balance (accepts c address port none created) = (omega arith, omega arith, omega arith)
    round_balance (accepts c address port (some n) true) = (omega arith, omega arith, omega arith)
    round_balance (accepts c address port (some n) false) = (omega arith, omega arith, omega arith)

    abandoned-cons :
        (a : Arrival) (as' : List Arrival)
        → abandoned m (a ∷ as') ≡ abandoned m (a ∷ []) + abandoned m as'
    abandoned-cons interrupted as' = omega arith
    abandoned-cons accept_failed as' = omega arith
    abandoned-cons (accepts c address port none created) as' = omega arith
    abandoned-cons (accepts c address port (some n) true) as' = omega arith
    abandoned-cons (accepts c address port (some n) false) as' = omega arith

    -- When the threads of all accepted clients have ended, whatever they met, every accepted socket
    -- was closed as often as it was opened and every context freed as often as it was allocated. A
    -- mutex was destroyed as often as it was set up, but for the clients whose thread could not be
    -- created: theirs is not destroyed.
    pub accept_loop_balance :
        (arrivals : List Arrival)
        → (count (opens fd) (all_calls arrivals) ≡ count (closes fd) (all_calls arrivals))
          × (count (allocates m) (all_calls arrivals) ≡ count (frees m) (all_calls arrivals))
          × (count (inits m) (all_calls arrivals)
              ≡ count (destroys m) (all_calls arrivals) + abandoned m arrivals)
    unfolding accept_loop thread_calls
    accept_loop_balance [] = (refl, refl, refl)
    accept_loop_balance (a ∷ as') =
        let (sockets, contexts, mutexes) = round_balance a in
        let (sockets', contexts', mutexes') = accept_loop_balance as' in
        let per = λ (p : Resource → Bool). all_calls-cons p a as' in
        (
          omega (arith, per (opens fd), per (closes fd), sockets, sockets'),
          omega (arith, per (allocates m), per (frees m), contexts, contexts'),
          omega (arith, per (inits m), per (destroys m), mutexes, mutexes', abandoned-cons a as'),
        )

-- Everything that the server needs before its loop is at hand.
abbrev pub is_usable : Setup → Bool
is_usable s =
    elim s.log_file [ none ↦ false | some f ↦ true ]
    && (elim s.server_fd [ pos fd ↦ true | negsuc n ↦ false ] && (s.bound && s.listening))

module _ (s : Setup) (port : ℕ) (arrivals : List Arrival) (l : Logger) where
  -- When the log file, the socket, `bind` or `listen` fails, the call returns EXIT_FAILURE: the log
  -- is closed, no client is accepted, and the server's socket was closed if it was opened.
  pub start_server_fails :
      (fd : ℤ)
      → is_usable s ≡ false
      → let r = start_server s port arrivals l in
        (r.status ≡ some 1)
        × (r.logger.log_file ≡ none)
        × (r.rounds.spawned ≡ [])
        × (count (opens fd) r.rounds.resources ≡ count (closes fd) r.rounds.resources)
  unfolding start_server serve logger_init logger_close
  start_server_fails fd h = ground arith

  -- When none of these fails, the call does not return: it holds the log file and the server's
  -- socket, and the clients that it serves are those of the loop, with any result of `setsockopt`.
  pub start_server_serves :
      is_usable s ≡ true
      → let r = start_server s port arrivals l in
        (r.status ≡ none)
        × (r.logger.log_file ≡ s.log_file)
        × (r.rounds.spawned ≡ (accept_loop arrivals).spawned)
        × (r.rounds.resources ≡ opens_socket s.server_fd ∷ (accept_loop arrivals).resources)
  unfolding start_server serve logger_init logger_close
  start_server_serves h = ground arith
