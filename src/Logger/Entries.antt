-- ===== src/Logger/Entries.antt =====
-- How server/src/logger.c formats an entry, against the shape of a log of one line for each entry.
use iot_monitoring_system.Base.{
  ℕ, ◌+◌, ◌<◌, ◌≡◌, refl, [], ◌∷◌, ◌++◌, some, Bytes, codes, snprintf-whole, decimal, ◌==◌,
  if◌then◌else◌, length, arith, All, IsDigit, decimal-IsDigit,
}
use iot_monitoring_system.Logger.{Moment, timestamp, log_line, event_line}

-- How many lines a text ends.
abbrev pub line_ends : Bytes → ℕ
line_ends [] = 0
line_ends (c ∷ cs) = (if c == b'\n' then 1 else 0) + line_ends cs

line_ends-append : (a b : Bytes) → line_ends (a ++ b) ≡ line_ends a + line_ends b
line_ends-append [] b = omega arith
line_ends-append (c ∷ cs) b = omega (arith, line_ends-append cs b)

line_ends-IsDigit : (ds : Bytes) → All IsDigit ds → line_ends ds ≡ 0
line_ends-IsDigit [] h = refl
line_ends-IsDigit (c ∷ cs) h = ground (arith, line_ends-IsDigit cs h.1)

-- A clock whose text has no line feed, as `strftime` gives it for the format of the logger.
abbrev pub IsPlain : Moment → Type 0
IsPlain m = line_ends (timestamp m.stamp) ≡ 0

line_ends-log_line :
    (m : Moment) (level message : Bytes)
    → IsPlain m
    → line_ends (log_line m level message) ≡ line_ends level + line_ends message + 1
unfolding log_line
line_ends-log_line m level message plain =
    let number = line_ends-IsDigit (decimal m.thread) (decimal-IsDigit m.thread) in
    omega (
      arith,
      line_ends-append (timestamp m.stamp) _,
      line_ends-append level _,
      line_ends-append (decimal m.thread) _,
      line_ends-append message (b'\n' ∷ []),
      number,
    )

-- The whole text of an event, before `line[1536]` cuts it.
abbrev pub event_text : Bytes → ℕ → Bytes → Bytes → Bytes
event_text ip port message response =
    codes "IP="
    ++ (ip
        ++ (codes " Port="
            ++ (decimal port
                ++ (codes " Message=" ++ (message ++ (codes " Response=" ++ response))))))

line_ends-event_text :
    (ip : Bytes) (port : ℕ) (message response : Bytes)
    → line_ends (event_text ip port message response)
      ≡ line_ends ip + line_ends message + line_ends response
line_ends-event_text ip port message response =
    let number = line_ends-IsDigit (decimal port) (decimal-IsDigit port) in
    omega (
      arith,
      line_ends-append ip _,
      line_ends-append (decimal port) _,
      line_ends-append message _,
      number,
    )

-- With a clock text of one line, the entry of an event whose text fits `line` ends as many lines as
-- the level, the address, the message and the response do together, and one more.
pub event_entry_lines :
    (m : Moment) (level ip : Bytes) (port : ℕ) (message response : Bytes)
    → IsPlain m
    → length (event_text ip port message response) < 1536
    → line_ends (log_line m level (event_line (some ip) port (some message) (some response)))
      ≡ line_ends level + line_ends ip + line_ends message + line_ends response + 1
unfolding event_line
event_entry_lines m level ip port message response plain fits =
    rw (snprintf-whole 1536 (event_text ip port message response) fits) (
      omega (
        arith,
        line_ends-log_line m level (event_text ip port message response) plain,
        line_ends-event_text ip port message response,
      ))
