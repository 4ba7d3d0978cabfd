-- ===== src/PosixSem/Timed.antt =====
-- sem_timedwait() of chapter_53/posix_sem.c.
use tlpi_solutions.Common.{
  ℕ, ◌+◌, ◌-◌, ◌%◌, Bool, Option, none, some, List, ◌==◌, ltb, leb, if◌then◌else◌, not, ◌&&◌, ◌||◌,
}
use tlpi_solutions.PosixSem.{einval, eintr, etimedout, other, err, PosixSem, Kernel, decrement}
use tlpi_solutions.PosixSem.Operations.{Wake, Waited, returned, tried, semop_wait}

pub record Timespec : Type 0 where
  pub tv_sec : ℕ
  pub tv_nsec : ℕ

abbrev pub second : ℕ
second = 1000000000

-- The current time is not before the timeout.
unfoldable pub passed : Timespec → Timespec → Bool
passed now timeout =
    ltb timeout.tv_sec now.tv_sec
    || (now.tv_sec == timeout.tv_sec && leb timeout.tv_nsec now.tv_nsec)

-- remaining_time, where the timeout has not passed
unfoldable pub remaining : Timespec → Timespec → Timespec
remaining now timeout =
    if ltb timeout.tv_nsec now.tv_nsec
    then (record {
      tv_sec = timeout.tv_sec - now.tv_sec - 1;
      tv_nsec = timeout.tv_nsec + second - now.tv_nsec;
    })
    else (record { tv_sec = timeout.tv_sec - now.tv_sec; tv_nsec = timeout.tv_nsec - now.tv_nsec })

-- The argument of alarm(), an `unsigned int`; 0 cancels the alarm.
unfoldable pub alarm_seconds : Timespec → ℕ
alarm_seconds t = (t.tv_sec + (if ltb 0 t.tv_nsec then 1 else 0)) % 4294967296

-- What clock_gettime() gives at its two calls, and whether sigaction() succeeds.
pub record Clock : Type 0 where
  pub first : Option Timespec
  pub handles : Bool
  pub second : Option Timespec

-- The end of sem_timedwait(), after a semop() that a signal interrupts.
unfoldable pub after_signal : Option Timespec → Timespec → ℕ → Kernel → List Wake → Waited
unfolding passed tried
after_signal none timeout semid k wakes = returned (err other) k wakes
after_signal (some now) timeout semid k wakes =
    if passed now timeout
    then returned (err etimedout) k wakes
    else tried (decrement einval k semid) wakes (returned (err etimedout) k wakes)

-- After the blocking semop().
unfoldable pub after_semop : Clock → Timespec → ℕ → Waited → Waited
unfolding after_signal
after_semop clock timeout semid (returned (err eintr) k rest) =
    after_signal clock.second timeout semid k rest
after_semop clock timeout semid w = w

-- The blocking part of sem_timedwait().
unfoldable pub wait_alarm : Clock → Timespec → List Wake → ℕ → Kernel → Waited
unfolding after_semop
wait_alarm clock timeout wakes semid k =
    if not clock.handles
    then returned (err other) k wakes
    else after_semop clock timeout semid (semop_wait wakes einval k semid)

-- sem_timedwait(): `none` is a semaphore that is NULL or SEM_FAILED, or a timeout that is NULL;
-- `negative` says that its tv_nsec is below 0. The wakes are what happens once the alarm is set:
-- its signal is a wake by a signal, and when it comes, after `alarm_seconds (remaining now
-- timeout)` by the clock, is no part of the model.
unfoldable pub sem_timedwait :
    Clock → List Wake → Option PosixSem → Option Timespec → Bool → Kernel → Waited
unfolding passed wait_alarm tried
sem_timedwait clock wakes none timeout negative k = returned (err einval) k wakes
sem_timedwait clock wakes (some sem) none negative k = returned (err einval) k wakes
sem_timedwait clock wakes (some sem) (some timeout) negative k =
    if negative || leb second timeout.tv_nsec
    then returned (err einval) k wakes
    else elim clock.first [
      | none ↦ returned (err other) k wakes
      | some now ↦
          if passed now timeout
          then returned (err etimedout) k wakes
          else tried (decrement einval k sem.semid) wakes
              (wait_alarm clock timeout wakes sem.semid k)
    ]
