-- ===== src/Base/Rows.antt =====
-- `if (strlen(output) + strlen(temp) < buffer_size) strcat(output, temp);`, row by row: how both
-- listings of the server fill the caller's buffer.
use Prim.Native.Nat.{ℕ, ◌+◌, ◌<◌}
use mathlib.Core.Path.{◌≡◌, refl, sym, ap, ◌∙◌}
use mathlib.Core.Bool.{Bool, true, false}
use mathlib.Core.List.{List, [], ◌∷◌, ◌++◌, append_assoc, append-nil}
use native.Mathlib.Omega.{arith}
use iot_monitoring_system.Base.Tests.{ltb, if◌then◌else◌}
use iot_monitoring_system.Base.Lists.{length, length-append}
use iot_monitoring_system.Base.CString.{Bytes}

-- A row that does not fit with its NUL is left out.
abbrev pub append_row : ℕ → Bytes → Bytes → Bytes
append_row size row output = if ltb (length output + length row) size then output ++ row else output

-- The buffer after each of some rows was offered to it.
pub fill : ℕ → List Bytes → Bytes → Bytes
fill size [] output = output
fill size (row ∷ rows) output = fill size rows (append_row size row output)

-- A row offered under a test is a row of a list that the test selects.
pub fill-guard :
    (b : Bool) (size : ℕ) (row : Bytes) (rows : List Bytes) (output : Bytes)
    → fill size rows (if b then append_row size row output else output)
      ≡ fill size (if b then row ∷ rows else rows) output
unfolding fill
fill-guard true size row rows output = refl
fill-guard false size row rows output = refl

pub fill-nil : (size : ℕ) (output : Bytes) → fill size [] output ≡ output
unfolding fill
fill-nil size output = refl

abbrev pub concat : List Bytes → Bytes
concat [] = []
concat (row ∷ rows) = row ++ concat rows

append_row-fits :
    (size : ℕ) (row output : Bytes)
    → length output < size
    → length (append_row size row output) < size
append_row-fits size row output h = ground (arith, length-append output row)

pub fill-fits :
    (size : ℕ) (rows : List Bytes) (output : Bytes)
    → length output < size
    → length (fill size rows output) < size
unfolding fill
fill-fits size [] output h = h
fill-fits size (row ∷ rows) output h =
    fill-fits size rows (append_row size row output) (append_row-fits size row output h)

append_row-whole :
    (size : ℕ) (row output : Bytes)
    → length output + length row < size
    → append_row size row output ≡ output ++ row
append_row-whole size row output h = ground arith

pub fill-whole :
    (size : ℕ) (rows : List Bytes) (output : Bytes)
    → length output + length (concat rows) < size
    → fill size rows output ≡ output ++ concat rows
unfolding fill
fill-whole size [] output h = sym (append-nil output)
fill-whole size (row ∷ rows) output h =
    let long = length-append row (concat rows) in
    let step = append_row-whole size row output (omega (arith, long)) in
    fill-whole size rows (append_row size row output)
      (omega (arith, long, ap length step, length-append output row))
    ∙ ap (λ out. out ++ concat rows) step
    ∙ append_assoc output row (concat rows)
