-- ===== src/Stream.antt =====
-- What read(2) gives on a descriptor, call by call, and buffers that it fills. Several programs of
-- the repository read a stream in pieces: chapter_59/kv_server.c, chapter_59/read_line_mod.c and
-- chapter_61/rdwrn.c.
use mathlib.Core.List.{append_assoc}
use tlpi_solutions.Common.{
  ℕ, ◌+◌, ◌-◌, ◌<◌, ◌≤◌, ◌≡◌, sym, ap, ◌∙◌, List, [], ◌∷◌, ◌++◌, arith, length, take, drop,
  length-take, take-append_ge, take-append_le, take-append_length, drop-append_length, drop-drop,
}

-- What the next call of read() meets: bytes that have arrived, an interruption by a signal (EINTR),
-- or another error. A stream with no event left is at its end: read() returns 0.
pub data Event : Type 0 where
  chunk : List ℕ → Event
  interrupted failed : Event

-- The bytes that the stream still carries.
abbrev pub bytes : List Event → List ℕ
bytes [] = []
bytes (chunk bs ∷ es) = bs ++ bytes es
bytes (interrupted ∷ es) = bytes es
bytes (failed ∷ es) = bytes es

-- Every event is an arrival of at least one byte or an interruption.
abbrev pub IsUnbroken : List Event → Type 0
IsUnbroken [] = Unit {0}
IsUnbroken (chunk bs ∷ es) = (0 < length bs) × IsUnbroken es
IsUnbroken (interrupted ∷ es) = IsUnbroken es
IsUnbroken (failed ∷ es) = ⊥

-- Every event is an arrival of at least one byte.
abbrev pub IsClean : List Event → Type 0
IsClean [] = Unit {0}
IsClean (chunk bs ∷ es) = (0 < length bs) × IsClean es
IsClean (interrupted ∷ es) = ⊥
IsClean (failed ∷ es) = ⊥

-- memory at `buf + off` overwritten by the bytes `bs`
unfoldable pub write_at : List ℕ → ℕ → List ℕ → List ℕ
write_at buf off bs = take off buf ++ (bs ++ drop (off + length bs) buf)

-- Writing behind a prefix.
pub write_at-append :
    (pre junk bs : List ℕ)
    → write_at (pre ++ junk) (length pre) bs ≡ (pre ++ bs) ++ drop (length bs) junk
unfolding write_at
write_at-append pre junk bs = rw (
  take-append_length pre junk,
  ← drop-drop (length bs) (length pre) (pre ++ junk),
  drop-append_length pre junk,
  append_assoc pre bs (drop (length bs) junk),
)

pub buf_whole :
    (pre bs xs junk : List ℕ) (m : ℕ)
    → length bs ≤ m
    → (pre ++ bs) ++ (take (m - length bs) xs ++ drop (m - length bs) (drop (length bs) junk))
      ≡ pre ++ (take m (bs ++ xs) ++ drop m junk)
buf_whole pre bs xs junk m h =
    let e : length bs + (m - length bs) ≡ m = omega arith in
    rw (drop-drop (m - length bs) (length bs) junk, e, take-append_ge m bs xs h)
      (append_assoc pre bs (take (m - length bs) xs ++ drop m junk)
        ∙ ap (λ l. pre ++ l) (sym (append_assoc bs (take (m - length bs) xs) (drop m junk))))

pub buf_part :
    (pre bs xs junk : List ℕ) (m : ℕ)
    → m ≤ length bs
    → write_at (pre ++ junk) (length pre) (take m bs) ≡ pre ++ (take m (bs ++ xs) ++ drop m junk)
buf_part pre bs xs junk m h =
    let e : length (take m bs) ≡ m = omega (arith, length-take m bs) in
    rw (write_at-append pre junk (take m bs), e, take-append_le m bs xs h)
      (append_assoc pre (take m bs) (drop m junk))
