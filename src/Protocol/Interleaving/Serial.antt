-- ===== src/Protocol/Interleaving/Serial.antt =====
-- A thread of server/src/server.c in `protocol_parse` (server/src/protocol.c) while no other thread
-- calls `strtok`.
use mathlib.Core.List.{append-nil, append_assoc}
use iot_monitoring_system.Base.{
  ℕ, suc, ◌≡◌, refl, sym, ap, ◌∙◌, List, [], ◌∷◌, ◌++◌, none, some, Bytes, if◌then◌else◌, arith,
  inl, inr, drop, length, length-append, Option-cases, zero, ◌+◌, true, false, map, c_str, leb,
}
use iot_monitoring_system.Protocol.Strtok.{Cursor, memory, strtok, collect}
use iot_monitoring_system.Protocol.Strtok.Collect.{collect-none, collect-zero, collect-suc}
use iot_monitoring_system.Protocol.Parse.{
  CommandType, unknown, command_type, max_args, first_cursor, parse_buffer,
}
use iot_monitoring_system.Protocol.Parse.Words.{parse_buffer-none, parse_buffer-some}
use iot_monitoring_system.Protocol.Interleaving.{
  Place, looping, parsed, Threads, update, cursor_at, strtok_from, begin_parse, turn_parse, begun,
  update-same, strtok_from-some, cursor-begun, cursor-same, begin_parse-some,
}

-- `n` turns of the loop of thread `i`.
unfoldable pub turns : ℕ → ℕ → Threads → Threads
turns zero i s = s
turns (suc n) i s = turns n i (turn_parse i s)

-- Thread `i` is in its loop, and `strtok` goes on in its message.
record Loops (i : ℕ) (type : CommandType) (args : List Place) (cur : Cursor) (s : Threads)
    : Type 0 where
  pc : s.pc i ≡ looping type args
  thread : s.saved.thread ≡ i
  stands : cursor_at s s.saved ≡ cur
  buffer : s.raw_buffer i ≡ memory cur

-- Thread `i` has parsed its message.
pub record Ends (i : ℕ) (type : CommandType) (args : List Place) (text : Bytes) (s : Threads)
    : Type 0 where
  pub pc : s.pc i ≡ parsed type args
  pub buffer : s.raw_buffer i ≡ text

abbrev pub place : ℕ → ℕ → Place
place i o = record { thread = i; offset = o }

turn_parse-parsed :
    {i : ℕ} {type : CommandType} {args : List Place} {text : Bytes} {s : Threads}
    → Ends i type args text s
    → Ends i type args text (turn_parse i s)
unfolding turn_parse
turn_parse-parsed h = rw (h.pc, turn_parse) h

begin_parse-none :
    (i : ℕ) (buffer : Bytes) (s : Threads)
    → strtok (first_cursor buffer) ≡ none
    → Ends i unknown [] buffer (begin_parse i buffer s)
unfolding begin_parse strtok_from
begin_parse-none i buffer s e =
    let same = update-same s.raw_buffer i buffer in
    rw (same, e, begin_parse, strtok_from)
      (record { pc = update-same s.pc i (parsed unknown []); buffer = same })

module _ (i : ℕ) (type : CommandType) where
  turn_parse-none :
      (args : List Place) (cur : Cursor) (s : Threads)
      → Loops i type args cur s
      → strtok cur ≡ none
      → Ends i type args (memory cur) (turn_parse i s)
  unfolding turn_parse strtok_from
  turn_parse-none args cur s l e =
      rw (l.pc, l.stands, e, turn_parse, strtok_from)
        (record { pc = update-same s.pc i (parsed type args); buffer = l.buffer })

  -- What a turn leaves when `strtok` returns the token at `o`.
  turn_parse-token :
      (args : List Place) (cur next : Cursor) (o : ℕ) (s : Threads)
      → Loops i type args cur s
      → strtok cur ≡ some (o, next)
      → turn_parse i s ≡ record {
        raw_buffer = update s.raw_buffer s.saved.thread (memory next);
        saved = record { thread = s.saved.thread; offset = length next.before };
        pc = update s.pc i (
            if leb max_args (length args)
            then parsed type args
            else looping type (args ++ record { thread = s.saved.thread; offset = o } ∷ []));
      }
  unfolding turn_parse
  turn_parse-token args cur next o s l e =
      rw (l.pc, strtok_from-some s.saved s (ap strtok l.stands ∙ e), turn_parse) refl

  turn_parse-full :
      (args : List Place) (cur next : Cursor) (o : ℕ) (s : Threads)
      → Loops i type args cur s
      → strtok cur ≡ some (o, next)
      → leb max_args (length args) ≡ true
      → Ends i type args (memory next) (turn_parse i s)
  turn_parse-full args cur next o s l e full =
      rw (turn_parse-token args cur next o s l e, full, l.thread)
        (record {
          pc = update-same s.pc i (parsed type args);
          buffer = update-same s.raw_buffer i (memory next);
        })

  turn_parse-more :
      (args : List Place) (cur next : Cursor) (o : ℕ) (s : Threads)
      → Loops i type args cur s
      → strtok cur ≡ some (o, next)
      → leb max_args (length args) ≡ false
      → Loops i type (args ++ record { thread = i; offset = o } ∷ []) next (turn_parse i s)
  turn_parse-more args cur next o s l e room =
      rw (turn_parse-token args cur next o s l e, room, l.thread)
        (record {
          pc = update-same s.pc i (looping type (args ++ record { thread = i; offset = o } ∷ []));
          thread = refl;
          stands = cursor-same i s.raw_buffer next;
          buffer = update-same s.raw_buffer i (memory next);
        })

  turns-Ends :
      (n : ℕ) (args : List Place) (text : Bytes) (s : Threads)
      → Ends i type args text s
      → Ends i type args text (turns n i s)
  unfolding turns
  turns-Ends zero args text s h = h
  turns-Ends (suc n) args text s h = turns-Ends n args text (turn_parse i s) (turn_parse-parsed h)

  -- The loop from any cursor, with `n` places free.
  turns-collect :
      (n : ℕ) (args : List Place) (cur : Cursor) (s : Threads)
      → length args + n ≡ max_args
      → Loops i type args cur s
      → Ends i type
          (args ++ map (place i) (collect n cur).0)
          (memory (collect n cur).1)
          (turns (suc n) i s)
  unfolding turns
  turns-collect zero args cur s room l = elim (Option-cases (strtok cur)) [
    | inl e ↦ rw (collect-none 0 cur e, append-nil args) (turn_parse-none args cur s l e)
    | inr ((o, next), e) ↦
        rw (collect-zero cur e, append-nil args)
          (turn_parse-full args cur next o s l e (ground (arith, room)))
  ]
  turns-collect (suc n) args cur s room l = elim (Option-cases (strtok cur)) [
    | inl e ↦
        rw (collect-none (suc n) cur e, append-nil args)
          (turns-Ends (suc n) args (memory cur) (turn_parse i s) (turn_parse-none args cur s l e))
    | inr ((o, next), e) ↦
        let more = args ++ place i o ∷ [] in
        rw
          (
            collect-suc n cur e,
            sym (append_assoc args (place i o ∷ []) (map (place i) (collect n next).0)),
          )
          (turns-collect n more next (turn_parse i s)
            (omega (arith, length-append args (place i o ∷ []), room))
            (turn_parse-more args cur next o s l e (ground (arith, room))))
  ]

-- Thread `i`, whatever the other threads left in the shared pointer and whatever its message: if no
-- other thread calls `strtok` from its first call on, it ends after at most nine turns of its loop,
-- with the command, the arguments and the array that `protocol_parse` has as one step.
pub serial_parse :
    (i : ℕ) (buffer : Bytes) (s : Threads)
    → let msg = parse_buffer buffer in
      Ends i msg.type
        (map (place i) msg.args)
        msg.raw_buffer
        (turns (max_args + 1) i (begin_parse i buffer s))
serial_parse i buffer s = elim (Option-cases (strtok (first_cursor buffer))) [
  | inl e ↦ rw (parse_buffer-none buffer e) (
      turns-Ends i unknown (max_args + 1) [] buffer (begin_parse i buffer s)
        (begin_parse-none i buffer s e))
  | inr ((o, cur), e) ↦
      rw (parse_buffer-some buffer o cur e, begin_parse-some i buffer _ s o cur e refl)
        (turns-collect i (command_type (c_str (drop o (memory cur)))) max_args [] cur
          (begun i buffer (c_str (drop o (memory cur))) cur s) refl
          (record {
            pc = update-same s.pc i (looping (command_type (c_str (drop o (memory cur)))) []);
            thread = refl;
            stands = cursor-begun i buffer (c_str (drop o (memory cur))) cur s;
            buffer = update-same (update s.raw_buffer i buffer) i (memory cur);
          }))
]
