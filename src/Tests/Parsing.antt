-- ===== src/Tests/Parsing.antt =====
-- Tests of `protocol_parse` with two threads.
use iot_monitoring_system.Base.{◌+◌, ◌≡◌, refl, map, [], ◌∷◌, ◌++◌, Bytes, codes, arith, NoNul}
use iot_monitoring_system.Protocol.Strtok.Words.{words}
use iot_monitoring_system.Protocol.Parse.{command_type, max_args, parse_buffer}
use iot_monitoring_system.Protocol.Interleaving.{
  Place, ready, looping, Threads, string_of, begin_parse, turn_parse,
}
use iot_monitoring_system.Protocol.Interleaving.Race.{strtok_race}
use iot_monitoring_system.Protocol.Interleaving.Serial.{turns, place, Ends, serial_parse}

abbrev login : Bytes
login = codes "LOGIN ana secret"

abbrev measurement : Bytes
measurement = codes "MEASUREMENT T1  42 C"

abbrev no_parse : Threads
no_parse = record {
  raw_buffer = λ i. [];
  saved = record { thread = 0; offset = 0 };
  pc = λ i. ready;
}

measurement-NoNul : NoNul measurement
measurement-NoNul = omega arith

login-NoNul : NoNul login
login-NoNul = omega arith

measurement-words :
    words measurement ≡ codes "MEASUREMENT" ∷ codes "T1" ∷ codes "42" ∷ codes "C" ∷ []
unfolding words
measurement-words = refl

login-words : words login ≡ codes "LOGIN" ∷ codes "ana" ∷ codes "secret" ∷ []
unfolding words
login-words = refl

strtok_race_example :
    let t =
      turn_parse 1
        (begin_parse 2 (login ++ 0 ∷ []) (begin_parse 1 (measurement ++ 0 ∷ []) no_parse)) in
    (p : Place) × (t.pc 1 ≡ looping (command_type (codes "MEASUREMENT")) (p ∷ []))
    × (p.thread ≡ 2)
    × (string_of t p ≡ codes "ana")
strtok_race_example =
    strtok_race 1 2 no_parse measurement login [] [] (codes "LOGIN") (codes "ana")
      (codes "MEASUREMENT") (codes "secret" ∷ []) (codes "T1" ∷ codes "42" ∷ codes "C" ∷ [])
      (omega arith) measurement-NoNul login-NoNul measurement-words login-words

serial_parse_example :
    let msg = parse_buffer (measurement ++ 0 ∷ []) in
    Ends 1 msg.type
      (map (place 1) msg.args)
      msg.raw_buffer
      (turns (max_args + 1) 1 (begin_parse 1 (measurement ++ 0 ∷ []) no_parse))
serial_parse_example = serial_parse 1 (measurement ++ 0 ∷ []) no_parse
