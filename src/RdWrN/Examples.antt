-- ===== src/RdWrN/Examples.antt =====
-- The theorems about chapter_61/rdwrn.c at concrete streams.
use tlpi_solutions.Common.{ℕ, ◌≡◌, some, List, [], ◌∷◌, ◌++◌, arith, take, drop}
use tlpi_solutions.Stream.{Event, chunk, interrupted, bytes, IsUnbroken}
use tlpi_solutions.RdWrN.{readn}
use tlpi_solutions.RdWrN.ReadN.{readn_complete}

abbrev pieces : List Event
pieces = chunk (1 ∷ 2 ∷ []) ∷ interrupted ∷ chunk (3 ∷ 4 ∷ 5 ∷ []) ∷ []

abbrev memory : List ℕ
memory = 0 ∷ 0 ∷ 0 ∷ 0 ∷ []

readn_complete_example :
    (es' : List Event) × (readn pieces memory 4
      ≡ record { ret = some 4; buf = take 4 (bytes pieces) ++ drop 4 memory; rest = es' })
    × (bytes es' ≡ drop 4 (bytes pieces))
    × IsUnbroken es'
readn_complete_example = readn_complete pieces memory 4 4 (omega arith) (omega arith)
