-- ===== src/PosixSem/Deadline.antt =====
-- The deadline of sem_timedwait() of chapter_53/posix_sem.c.
use tlpi_solutions.Common.{ℕ, ◌+◌, ◌*◌, ◌%◌, ◌≤◌, ◌<◌, ◌≡◌, false, arith, ltb, Bool-cases, inl, inr}
use tlpi_solutions.PosixSem.Timed.{Timespec, second, passed, remaining, alarm_seconds}

-- A time in nanoseconds.
abbrev pub nanoseconds : Timespec → ℕ
nanoseconds t = t.tv_sec * second + t.tv_nsec

abbrev pub IsNormal : Timespec → Type 0
IsNormal t = t.tv_nsec < second

pub passed_lem :
    (now timeout : Timespec)
    → IsNormal now
    → IsNormal timeout
    → passed now timeout ≡ false
    → nanoseconds now < nanoseconds timeout
unfolding passed
passed_lem now timeout a b e = ground arith

remaining_lem :
    (now timeout : Timespec)
    → IsNormal now
    → IsNormal timeout
    → nanoseconds now < nanoseconds timeout
    → (nanoseconds now + nanoseconds (remaining now timeout) ≡ nanoseconds timeout)
      × IsNormal (remaining now timeout)
unfolding remaining
remaining_lem now timeout a b lt = elim (Bool-cases (ltb timeout.tv_nsec now.tv_nsec)) [
  | inl borrow ↦
      let less : timeout.tv_nsec < now.tv_nsec = ground arith in
      rw borrow (omega arith, omega arith)
  | inr plain ↦
      let not_less : now.tv_nsec ≤ timeout.tv_nsec = ground arith in
      rw plain (omega arith, omega arith)
]

alarm_lem :
    (t : Timespec)
    → IsNormal t
    → 0 < nanoseconds t
    → t.tv_sec + 1 < 4294967296
    → (0 < alarm_seconds t)
      × (nanoseconds t ≤ alarm_seconds t * second)
      × (alarm_seconds t * second < nanoseconds t + second)
unfolding alarm_seconds
alarm_lem t a pos small = elim (Bool-cases (ltb 0 t.tv_nsec)) [
  | inl part ↦
      let some_part : 0 < t.tv_nsec = ground arith in
      let e : (t.tv_sec + 1) % 4294967296 ≡ t.tv_sec + 1 = omega arith in
      rw (part, e) (omega arith, omega arith, omega arith)
  | inr whole ↦
      let no_part : t.tv_nsec ≡ 0 = ground arith in
      let e : (t.tv_sec + 0) % 4294967296 ≡ t.tv_sec = omega arith in
      rw (whole, e) (omega arith, omega arith, omega arith)
]

-- Where the timeout has not passed, both times have less than 10^9 nanoseconds beside their seconds,
-- and the timeout is less than 2^32 - 1 seconds away: sem_timedwait() sets an alarm of at least one
-- second, which comes at the timeout or after it, and less than a second after it.
pub alarm_covers :
    (now timeout : Timespec)
    → IsNormal now
    → IsNormal timeout
    → passed now timeout ≡ false
    → timeout.tv_sec + 1 < now.tv_sec + 4294967296
    → let t = alarm_seconds (remaining now timeout) in
      (0 < t)
      × (nanoseconds timeout ≤ nanoseconds now + t * second)
      × (nanoseconds now + t * second < nanoseconds timeout + second)
alarm_covers now timeout a b e near =
    let before = passed_lem now timeout a b e in
    let (sum, normal) = remaining_lem now timeout a b before in
    let (pos, le, lt) =
      alarm_lem (remaining now timeout) normal (omega (arith, sum)) (omega (arith, sum)) in
    (pos, omega (arith, sum, le), omega (arith, sum, lt))
