-- ===== src/ReadLine/Examples.antt =====
-- The theorems about chapter_59/read_line.c at concrete streams.
use tlpi_solutions.Common.{ℕ, ◌≡◌, refl, some, List, [], ◌∷◌, ◌++◌, arith, length, take}
use tlpi_solutions.ReadLine.{ByteEvent, byte, signal, newline, read_line, read_line_loop, finish}
use tlpi_solutions.ReadLine.Lines.{read_line_line}

-- "hi", with an interruption.
abbrev hi : List ByteEvent
hi = byte b'h' ∷ signal ∷ byte b'i' ∷ []

abbrev next_line : List ByteEvent
next_line = byte b'x' ∷ []

read_line_line_example : read_line (hi ++ byte newline ∷ next_line) 3 ≡ record {
  ret = some (length (take 2 ((b'h' ∷ b'i' ∷ []) ++ newline ∷ [])));
  string = some (take 2 ((b'h' ∷ b'i' ∷ []) ++ newline ∷ []));
  rest = next_line;
}
read_line_line_example =
    read_line_line hi (b'h' ∷ b'i' ∷ []) next_line 3 (refl, omega arith, (refl, omega arith, tt))
      (omega arith)

abbrev one_byte : List ℕ
one_byte = b'h' ∷ []

cut : (read_line (hi ++ byte newline ∷ next_line) 2).string ≡ some one_byte
unfolding read_line read_line_loop finish
cut = refl
