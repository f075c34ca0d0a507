-- ===== src/Protocol/Interleaving.antt =====
-- The calls of `strtok` in `protocol_parse` (server/src/protocol.c) between the threads of
-- server/src/server.c. The pointer that `strtok` keeps is one for the whole program, as in glibc and
-- musl, so the call
-- `strtok(NULL, " ")` of a thread goes on where the last call of any thread ended.
pub mod Race
pub mod Serial
use iot_monitoring_system.Base.{
  ℕ, ◌≡◌, ◌≢◌, refl, ap, ◌∙◌, List, [], ◌∷◌, ◌++◌, Option, none, some, Bytes, ◌==◌, if◌then◌else◌,
  arith, ==_iff, take, drop, take-append, drop-append, length, c_str, leb,
}
use iot_monitoring_system.Protocol.Strtok.{Cursor, memory, strtok}
use iot_monitoring_system.Protocol.Parse.{CommandType, unknown, command_type, max_args}

-- A pointer into the `raw_buffer` of a thread's message.
pub record Place : Type 0 where
  pub thread : ℕ
  pub offset : ℕ

-- Where a thread is in `protocol_parse`: before the first call, in the loop, or at the end.
pub data Pc : Type 0 where
  ready : Pc
  looping parsed : CommandType → List Place → Pc

pub record Threads : Type 0 where
  pub raw_buffer : ℕ → Bytes
  pub saved : Place
  pub pc : ℕ → Pc

abbrev pub update {ℓ} : {A : Type ℓ} → (ℕ → A) → ℕ → A → ℕ → A
update f i x j = if i == j then x else f j

-- The string that a pointer points to.
abbrev pub string_of : Threads → Place → Bytes
string_of s p = c_str (drop p.offset (s.raw_buffer p.thread))

abbrev pub cursor_at : Threads → Place → Cursor
cursor_at s p = record {
  before = take p.offset (s.raw_buffer p.thread);
  after = drop p.offset (s.raw_buffer p.thread);
}

-- A call of `strtok` that goes on from `p`.
unfoldable pub strtok_from : Place → Threads → Option (Place × Threads)
strtok_from p s = elim (strtok (cursor_at s p)) [
  | none ↦ none
  | some (o, cur) ↦ some (
    record { thread = p.thread; offset = o },
    record s {
      raw_buffer = update s.raw_buffer p.thread (memory cur);
      saved = record { thread = p.thread; offset = length cur.before };
    },
  )
]

abbrev pub place_pc : ℕ → Pc → Threads → Threads
place_pc i p s = record s { pc = update s.pc i p }

-- `strtok(msg->raw_buffer, " ")` of thread `i`, with its message in place, and the tests of the
-- command behind it.
unfoldable pub begin_parse : ℕ → Bytes → Threads → Threads
begin_parse i buffer s =
    let start : Place = record { thread = i; offset = 0 } in
    let s' : Threads = record s { raw_buffer = update s.raw_buffer i buffer; saved = start } in
    elim (strtok_from start s') [
      | none ↦ place_pc i (parsed unknown []) s'
      | some (p, t) ↦ place_pc i (looping (command_type (string_of t p)) []) t
    ]

-- One turn of the loop: the call `strtok(NULL, " ")` of thread `i`, and the test behind it.
unfoldable pub turn_parse : ℕ → Threads → Threads
turn_parse i s = elim (s.pc i) [
  | ready ↦ s
  | parsed type args ↦ s
  | looping type args ↦ elim (strtok_from s.saved s) [
    | none ↦ place_pc i (parsed type args) s
    | some (p, t) ↦
        place_pc i
          (if leb max_args (length args) then parsed type args else looping type (args ++ p ∷ [])) t
  ]
]

pub update-same {ℓ} : {A : Type ℓ} (f : ℕ → A) (i : ℕ) (x : A) → update f i x i ≡ x
update-same f i x = rw (==_iff i i).1 refl

pub update-other {ℓ} : {A : Type ℓ} (f : ℕ → A) (i j : ℕ) (x : A) → i ≢ j → update f i x j ≡ f j
update-other f i j x h = ground (arith, ==_iff i j)

pub strtok_from-some :
    (p : Place) (s : Threads) {o : ℕ} {cur : Cursor}
    → strtok (cursor_at s p) ≡ some (o, cur)
    → strtok_from p s
      ≡ some (
        record { thread = p.thread; offset = o },
        record s {
          raw_buffer = update s.raw_buffer p.thread (memory cur);
          saved = record { thread = p.thread; offset = length cur.before };
        },
      )
unfolding strtok_from
strtok_from-some p s e = rw (e, strtok_from)

-- The threads after thread `i` has cut off the first word of its message.
abbrev pub begun : ℕ → Bytes → Bytes → Cursor → Threads → Threads
begun i buffer w cur s = record {
  raw_buffer = update (update s.raw_buffer i buffer) i (memory cur);
  saved = record { thread = i; offset = length cur.before };
  pc = update s.pc i (looping (command_type w) []);
}

pub cursor-same :
    (i : ℕ) (buffers : ℕ → Bytes) (cur : Cursor)
    → record {
      before = take (length cur.before) (update buffers i (memory cur) i);
      after = drop (length cur.before) (update buffers i (memory cur) i);
    }
      ≡ cur
cursor-same i buffers cur =
    ap (λ m. record { before = take (length cur.before) m; after = drop (length cur.before) m })
      (update-same buffers i (memory cur))
    ∙ rw
        (
          take-append cur.before cur.after (length cur.before) refl,
          drop-append cur.before cur.after (length cur.before) refl,
        )
        refl

pub cursor-begun :
    (i : ℕ) (buffer w : Bytes) (cur : Cursor) (s : Threads)
    → let t = begun i buffer w cur s in cursor_at t t.saved ≡ cur
cursor-begun i buffer w cur s = cursor-same i (update s.raw_buffer i buffer) cur

pub begin_parse-some :
    (i : ℕ) (buffer w : Bytes) (s : Threads) (o : ℕ) (cur : Cursor)
    → strtok (record { before = []; after = buffer }) ≡ some (o, cur)
    → c_str (drop o (memory cur)) ≡ w
    → begin_parse i buffer s ≡ begun i buffer w cur s
unfolding begin_parse
begin_parse-some i buffer w s o cur e first =
    let start : Place = record { thread = i; offset = 0 } in
    let s' : Threads = record s { raw_buffer = update s.raw_buffer i buffer; saved = start } in
    let here : strtok (cursor_at s' start) ≡ some (o, cur) =
      ap (λ m. strtok (record { before = []; after = m })) (update-same s.raw_buffer i buffer)
      ∙ e in
    let word : c_str (drop o (update (update s.raw_buffer i buffer) i (memory cur) i)) ≡ w =
      ap (λ m. c_str (drop o m)) (update-same (update s.raw_buffer i buffer) i (memory cur))
      ∙ first in
    rw (strtok_from-some start s' here, word, begin_parse) refl
