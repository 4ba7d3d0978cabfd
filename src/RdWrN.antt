-- ===== src/RdWrN.antt =====
-- chapter_61/rdwrn.c: readn() and writen(), which go on after partial transfers and interruptions.
pub mod ReadN
pub mod WriteN
mod Examples
use tlpi_solutions.Common.{
  ℕ, ◌+◌, ◌-◌, Bool, true, false, Option, none, some, List, [], ◌∷◌, ◌++◌, ◌==◌, ltb, leb, length,
  take, drop,
}
use tlpi_solutions.Stream.{Event, chunk, interrupted, failed, write_at}

-- What a call leaves: its return value (`none` is -1), the memory, and the events left.
pub record ReadResult : Type 0 where
  pub ret : Option ℕ
  pub buf : List ℕ
  pub rest : List Event

-- The loop of readn(), with `tot_read` bytes read.
pub readn_loop : List Event → List ℕ → ℕ → ℕ → ReadResult
readn_loop [] buf n tot_read = record { ret = some tot_read; buf = buf; rest = [] }
readn_loop (interrupted ∷ es) buf n tot_read = elim (ltb tot_read n) [
  | true ↦ readn_loop es buf n tot_read
  | false ↦ record { ret = some tot_read; buf = buf; rest = interrupted ∷ es }
]
readn_loop (failed ∷ es) buf n tot_read = elim (ltb tot_read n) [
  | true ↦ record { ret = none; buf = buf; rest = es }
  | false ↦ record { ret = some tot_read; buf = buf; rest = failed ∷ es }
]
readn_loop (chunk bs ∷ es) buf n tot_read = elim (ltb tot_read n) [
  | true ↦ elim (length bs == 0) [
    | true ↦ record { ret = some tot_read; buf = buf; rest = es }
    | false ↦ elim (leb (length bs) (n - tot_read)) [
      | true ↦ readn_loop es (write_at buf tot_read bs) n (tot_read + length bs)
      | false ↦ record {
        ret = some n;
        buf = write_at buf tot_read (take (n - tot_read) bs);
        rest = chunk (drop (n - tot_read) bs) ∷ es;
      }
    ]
  ]
  | false ↦ record { ret = some tot_read; buf = buf; rest = chunk bs ∷ es }
]

pub readn : List Event → List ℕ → ℕ → ReadResult
readn es buf n = readn_loop es buf n 0

-- What the next call of write() does: take up to so many bytes (a write that takes none returns
-- 0), or return -1, with EINTR or another error. When no event is left, write() takes all.
pub data WriteEvent : Type 0 where
  takes : ℕ → WriteEvent
  signalled refused : WriteEvent

-- What a call leaves: its return value (`none` is -1), and the bytes that were transferred.
pub record WriteResult : Type 0 where
  pub ret : Option ℕ
  pub sent : List ℕ

-- The loop of writen(): `buf` is what is left of the `n` bytes, `sent` what write() took.
pub writen_loop : List WriteEvent → List ℕ → ℕ → List ℕ → WriteResult
writen_loop es [] n sent = record { ret = some n; sent = sent }
writen_loop [] (b ∷ buf) n sent = record { ret = some n; sent = sent ++ b ∷ buf }
writen_loop (signalled ∷ es) (b ∷ buf) n sent = writen_loop es (b ∷ buf) n sent
writen_loop (refused ∷ es) (b ∷ buf) n sent = record { ret = none; sent = sent }
writen_loop (takes k ∷ es) (b ∷ buf) n sent = elim (k == 0) [
  | true ↦ record { ret = none; sent = sent }
  | false ↦ writen_loop es (drop k (b ∷ buf)) n (sent ++ take k (b ∷ buf))
]

pub writen : List WriteEvent → List ℕ → ℕ → WriteResult
writen es buffer n = writen_loop es (take n buffer) n []
