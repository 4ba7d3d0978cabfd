-- ===== src/PosixSem/Operations.antt =====
-- sem_wait(), sem_trywait(), sem_post() and sem_getvalue() of chapter_53/posix_sem.c. `none` is a
-- pointer that is NULL or SEM_FAILED.
use tlpi_solutions.Common.{ℕ, Bool, Option, none, some, List, [], ◌∷◌, if◌then◌else◌, not}
use tlpi_solutions.PosixSem.{
  Errno, einval, eagain, eintr, eidrm, Result, ok, err, PosixSem, Kernel, decrement, increment,
}

-- What happens while a process is blocked in semop(): a signal with a handler, or a step of other
-- processes.
pub data Wake : Type 0 where
  signal : Wake
  change : (Kernel → Kernel) → Wake

-- How a call that may block ends: it returns, with what happens later left, or it is blocked when
-- nothing more happens.
pub data Waited : Type 0 where
  returned : Result (Unit {0}) → Kernel → List Wake → Waited
  blocked : Kernel → Waited

-- What follows a semop() by -1 that does not block: `again` where it would.
unfoldable pub tried : Result (Unit {0}) × Kernel → List Wake → Waited → Waited
tried (err eagain, k) wakes again = again
tried (r, k) wakes again = returned r k wakes

-- One try of a blocking semop() by -1: the end of the call, or what follows where it blocks.
unfoldable pub attempt : Errno → Kernel → ℕ → List Wake → Waited → Waited
unfolding tried
attempt gone k semid wakes blocks = tried (decrement gone k semid) wakes blocks

-- A blocking semop() by -1.
unfoldable pub semop_wait : List Wake → Errno → Kernel → ℕ → Waited
unfolding attempt
semop_wait [] gone k semid = attempt gone k semid [] (blocked k)
semop_wait (signal ∷ wakes) gone k semid =
    attempt gone k semid (signal ∷ wakes) (returned (err eintr) k wakes)
semop_wait (change f ∷ wakes) gone k semid =
    attempt gone k semid (change f ∷ wakes) (semop_wait wakes eidrm (f k) semid)

-- The loop of sem_wait(): semop() again after each signal.
unfoldable pub wait_loop : List Wake → Errno → Kernel → ℕ → Waited
unfolding attempt
wait_loop [] gone k semid = attempt gone k semid [] (blocked k)
wait_loop (signal ∷ wakes) gone k semid =
    attempt gone k semid (signal ∷ wakes) (wait_loop wakes einval k semid)
wait_loop (change f ∷ wakes) gone k semid =
    attempt gone k semid (change f ∷ wakes) (wait_loop wakes eidrm (f k) semid)

unfoldable pub sem_wait : List Wake → Option PosixSem → Kernel → Waited
unfolding wait_loop
sem_wait wakes none k = returned (err einval) k wakes
sem_wait wakes (some sem) k = wait_loop wakes einval k sem.semid

unfoldable pub sem_trywait : Option PosixSem → Kernel → Result (Unit {0}) × Kernel
sem_trywait none k = (err einval, k)
sem_trywait (some sem) k = decrement einval k sem.semid

unfoldable pub sem_post : Option PosixSem → Kernel → Result (Unit {0}) × Kernel
sem_post none k = (err einval, k)
sem_post (some sem) k = increment k sem.semid

-- sem_getvalue(), with whether `sval` is not NULL
unfoldable pub sem_getvalue : Option PosixSem → Bool → Kernel → Result ℕ
sem_getvalue none sval k = err einval
sem_getvalue (some sem) sval k =
    if not sval
    then err einval
    else elim (k.sems.object sem.semid) [ none ↦ err einval | some o ↦ ok o.content ]
