-- ===== src/ReadLine.antt =====
-- chapter_59/read_line.c: readLine(), which reads a byte at a time up to a newline.
pub mod Lines
mod Examples
use tlpi_solutions.Common.{
  ℕ, ◌-◌, Option, none, some, List, [], ◌∷◌, ◌++◌, ◌==◌, ltb, length, if◌then◌else◌,
}

-- What the next read() of one byte meets. A stream with no event left is at its end.
pub data ByteEvent : Type 0 where
  byte : (ch : ℕ) → ByteEvent
  signal failure : ByteEvent

-- What a call leaves: its return value (`none` is -1), the string that it puts into the buffer, in
-- front of a NUL, with `none` where it does not put a NUL, and the events left.
pub record LineResult : Type 0 where
  pub ret : Option ℕ
  pub string : Option (List ℕ)
  pub rest : List ByteEvent

abbrev pub newline : ℕ
newline = 10

pub finish : List ℕ → List ByteEvent → LineResult
finish placed es = record { ret = some (length placed); string = some placed; rest = es }

-- The loop of readLine(): `placed` is what it has put into the buffer, `totRead` bytes.
pub read_line_loop : List ByteEvent → ℕ → List ℕ → LineResult
unfolding finish
read_line_loop [] n placed =
    if length placed == 0
    then (record { ret = some 0; string = none; rest = [] })
    else finish placed []
read_line_loop (signal ∷ es) n placed = read_line_loop es n placed
read_line_loop (failure ∷ es) n placed = record { ret = none; string = none; rest = es }
read_line_loop (byte ch ∷ es) n placed =
    let placed' = if ltb (length placed) (n - 1) then placed ++ ch ∷ [] else placed in
    let more = read_line_loop es n placed' in if ch == newline then finish placed' es else more

-- readLine() with a buffer that is not NULL
pub read_line : List ByteEvent → ℕ → LineResult
read_line es n =
    if n == 0 then (record { ret = none; string = none; rest = es }) else read_line_loop es n []
