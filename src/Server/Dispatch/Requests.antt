-- ===== src/Server/Dispatch/Requests.antt =====
-- Whole requests, from the bytes that a client sends to the response and the new state
-- (`handle_client` of server/src/server.c, with protocol.c and sensor_manager.c).
use iot_monitoring_system.Base.{
  ℕ, zero, ◌≤◌, ◌<◌, ◌≡◌, ◌⊎◌, refl, sym, ap, ◌∙◌, subst, [], ◌∷◌, ◌++◌, some, Bool, true, Bytes,
  codes, NoNul, length, leb, if◌then◌else◌, ℤ, pos, Doubles, arith, Bool-cases, Option-cases, inl,
  inr,
}
use iot_monitoring_system.Protocol.Parse.{ParsedMessage, argc, arg, command_type, max_buffer_size}
use iot_monitoring_system.Protocol.Request.{
  IsWord, request, protocol_parse-request, arguments_of, arg-word,
}
use iot_monitoring_system.Protocol.Request.Raw.{NoNul-word}
use iot_monitoring_system.Protocol.Reply.{protocol_build_ok}
use iot_monitoring_system.SensorManager.{
  Table, sensor_manager_register, success, failure, max_sensors, find_sensor,
}
use iot_monitoring_system.SensorManager.Registry.{view, add}
use iot_monitoring_system.SensorManager.Refinement.{succeeds, register_refines}
use iot_monitoring_system.AuthClient.{Network}
use iot_monitoring_system.Server.Dispatch.{
  Server, Client, Handled, error_response, handle_register_sensor, dispatch, handle_message,
}
use iot_monitoring_system.Server.Dispatch.Invariant.{IsValid}

-- What a registration answers.
abbrev pub registered : Bool → Bytes
registered ok =
    if ok
    then protocol_build_ok (some (codes "SENSOR_REGISTERED"))
    else error_response (codes "500") (codes "Failed to register sensor")

response-registered :
    (r : ℤ)
    → (r ≡ success) ⊎ (r ≡ failure)
    → elim r [
      | pos zero ↦ protocol_build_ok (some (codes "SENSOR_REGISTERED"))
      | _ ↦ error_response (codes "500") (codes "Failed to register sensor")
    ]
      ≡ registered (succeeds r)
response-registered r (inl e) = rw e
response-registered r (inr e) = rw e

register_sensor-IsWord : IsWord (codes "REGISTER_SENSOR")
register_sensor-IsWord = ((λ e. cc), omega arith)

-- The bytes of a registration.
abbrev pub registration : Bytes → Bytes → Bytes
registration id type = request (codes "REGISTER_SENSOR") (id ∷ type ∷ [])

module _ {F : Type 0} ⦃d : Doubles F⦄ where
  register-result :
      (now : ℕ) (type id : Bytes) (t : Table F)
      → let r = (sensor_manager_register now (some type) (some id) t).0 in
        (r ≡ success) ⊎ (r ≡ failure)
  unfolding sensor_manager_register
  register-result now type id t = elim (Option-cases (find_sensor t.sensors t.sensor_count id)) [
    | inl new ↦ elim (Bool-cases (leb max_sensors t.sensor_count)) [
      | inl full ↦ rw (new, full, sensor_manager_register) (inr refl)
      | inr room ↦ rw (new, room, sensor_manager_register) (inl refl)
    ]
    | inr (i, known) ↦ rw (known, sensor_manager_register) (inl refl)
  ]

  -- The effect of a registration on the state and the client.
  abbrev pub Registers : ℕ → Bytes → Bytes → Server F → Handled F → Type 0
  Registers now type id s h =
      (h.response ≡ registered (add now type id (view s.table)).0)
      × (view h.server.table ≡ (add now type id (view s.table)).1)
      × (h.server.engine ≡ s.engine)
      × (h.server.operators ≡ s.operators)
      × (h.sends ≡ [])

  handle_register_sensor_lem :
      (now : ℕ) (msg : ParsedMessage) {s : Server F}
      → IsValid s
      → 2 ≤ argc msg
      → NoNul (arg msg 0)
      → NoNul (arg msg 1)
      → Registers now (arg msg 1) (arg msg 0) s (handle_register_sensor now msg s)
  unfolding handle_register_sensor
  handle_register_sensor_lem now msg {s} v enough hi ht =
      let refined = register_refines now (arg msg 1) (arg msg 0) ht hi v.table in
      let result = register-result now (arg msg 1) (arg msg 0) s.table in
      let test : leb 2 (argc msg) ≡ true = ground arith in
      rw (test, handle_register_sensor)
        (
          response-registered _ result ∙ ap (λ p. registered p.0) refined,
          ap (λ p. p.1) refined,
          refl,
          refl,
          refl,
        )

  -- In a valid state, the bytes of a request REGISTER_SENSOR of an id and a type, with any bytes
  -- behind it in the buffer, register the sensor: the entries of the table become those that `add`
  -- leaves, the response tells whether it took the sensor, and nothing else changes or is sent.
  pub register_request :
      (now : ℕ) (net : Network) (client : Client) (id type junk : Bytes) {s : Server F}
      → IsValid s
      → IsWord id
      → IsWord type
      → length (registration id type) < max_buffer_size
      → Registers now type id s (
          handle_message now net client
            (registration id type ++ junk)
            (pos (length (registration id type)))
            s)
  unfolding handle_message dispatch command_type
  register_request now net client id type junk {s} v hi ht fits =
      let ws = id ∷ type ∷ [] in
      let (msg, parsed, kind, args) =
        protocol_parse-request (codes "REGISTER_SENSOR") ws junk register_sensor-IsWord
          (hi, (ht, tt)) fits in
      let a0 = arg-word msg ws 0 args (omega arith) in
      let a1 = arg-word msg ws 1 args (omega arith) in
      let enough = arguments_of msg ws args in
      let handled =
        handle_register_sensor_lem now msg v (omega arith)
          (subst NoNul (sym a0) (NoNul-word id hi.1))
          (subst NoNul (sym a1) (NoNul-word type ht.1)) in
      let result = handle_register_sensor now msg s in
      let named = subst (λ i. Registers now (arg msg 1) i s result) a0 handled in
      rw (parsed, handle_message)
        (rw (kind, dispatch) (subst (λ t. Registers now t id s result) a1 named))
