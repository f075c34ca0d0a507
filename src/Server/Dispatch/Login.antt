-- ===== src/Server/Dispatch/Login.antt =====
-- LOGIN (`handle_client` of server/src/server.c, with auth_client.c and the registry of operators).
use iot_monitoring_system.Base.{
  length-append, snprintf-whole, ◌≤◌, ◌≡◌, refl, [], ◌++◌, some, Bool, true, false, Bytes, codes,
  snprintf, leb, if◌then◌else◌, ℤ, pos, negsuc, Doubles, arith,
}
use iot_monitoring_system.Protocol.Parse.{ParsedMessage, argc, arg}
use iot_monitoring_system.Protocol.Reply.{crlf, resp_size, protocol_build_ok}
use iot_monitoring_system.AuthClient.{Network}
use iot_monitoring_system.AuthClient.Outcome.{
  IsRole, auth_client_verify-IsRole, reaches, grants, received, auth_client_verify_lem,
}
use iot_monitoring_system.Server.Operators.{register_operator}
use iot_monitoring_system.Server.Dispatch.{
  Server, Client, Handled, error_response, handle_login, after_auth,
}

module _ {F : Type 0} ⦃d : Doubles F⦄ (net : Network) (client : Client) (msg : ParsedMessage)
    (s : Server F) where
  -- A service that is reached, and what it answers to the name and the password of the message.
  abbrev pub is_reached : Bool
  is_reached = reaches net.docker_host net.local_host

  abbrev pub is_granted : Bool
  is_granted = grants (received net (arg msg 0) (arg msg 1))

  -- The role that the answer grants: 63 bytes of it at most.
  abbrev pub Grants : Bytes → Type 0
  Grants = IsRole 64 (received net (arg msg 0) (arg msg 1))

  -- What a login does for a service that is reached or not, and that grants a role or not.
  abbrev pub LogsIn : Bool → Bool → Handled F → Type 0
  LogsIn false granted h =
      (h.response ≡ error_response (codes "503") (codes "Auth service unavailable"))
      × (h.server ≡ s)
      × (h.sends ≡ [])
  LogsIn true false h =
      (h.response ≡ error_response (codes "401") (codes "Invalid credentials"))
      × (h.server ≡ s)
      × (h.sends ≡ [])
  LogsIn true true h =
      ((role : Bytes) × Grants role × (h.response ≡ codes "OK ROLE_" ++ (role ++ crlf)))
      × (h.server ≡ record s {
        operators = (register_operator client.client_fd client.mutex s.operators).0;
      })
      × (h.sends ≡ [])

  ok_role :
      (role : Bytes)
      → Grants role
      → protocol_build_ok (some (snprintf 128 (codes "ROLE_" ++ role)))
        ≡ codes "OK ROLE_" ++ (role ++ crlf)
  unfolding protocol_build_ok
  ok_role role g =
      rw (snprintf-whole 128 (codes "ROLE_" ++ role) (omega (arith, g.fits)))
        (snprintf-whole resp_size _ (omega (arith, length-append role crlf, g.fits)))

  after_auth-LogsIn :
      (reached granted : Bool) (result : ℤ) (role : Bytes)
      → result ≡ (if reached then (if granted then pos 1 else pos 0) else negsuc 0)
      → (reached ≡ true → granted ≡ true → Grants role)
      → LogsIn reached granted (after_auth result role client s)
  unfolding after_auth
  after_auth-LogsIn false granted result role e n = rw e (refl, refl, refl)
  after_auth-LogsIn true false result role e n = rw e (refl, refl, refl)
  after_auth-LogsIn true true result role e n =
      rw e ((role, n refl refl, ok_role role (n refl refl)), refl, refl)

  -- A LOGIN with two arguments or more registers the client for alerts exactly when a host of the
  -- authentication service is reached and its answer grants a role; the response then is
  -- "OK ROLE_" and the role that the answer grants, the text behind its "ROLE:" up to a line end, at
  -- most 63 bytes. Without a host it is error 503 and without a role error 401, and the state is left
  -- alone. Nothing is sent to operators.
  pub login_handled : 2 ≤ argc msg → LogsIn is_reached is_granted (handle_login net client msg s)
  unfolding handle_login
  login_handled enough =
      let (sockets, result, role, short) =
        auth_client_verify_lem net (arg msg 0) (arg msg 1) 64 (omega arith) in
      let granted = auth_client_verify-IsRole net (arg msg 0) (arg msg 1) 64 (omega arith) in
      let test : leb 2 (argc msg) ≡ true = ground arith in
      rw (test, handle_login) (after_auth-LogsIn is_reached is_granted _ _ result granted)
