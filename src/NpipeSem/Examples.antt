-- ===== src/NpipeSem/Examples.antt =====
-- The theorems about chapter_47/npipe_sem.c at one and at three calls of sem_init().
use tlpi_solutions.Common.{◌≡◌, refl, true, arith}
use tlpi_solutions.NpipeSem.{returns, sem_release, sem_destroy}
use tlpi_solutions.NpipeSem.Holders.{
  System, Reachable, then_step, releases, fifo_with, shared, all_hold,
}

abbrev one_held : System
one_held = shared 1 0 1

all_hold_example : Reachable (shared 3 0 3)
all_hold_example = all_hold 3 (omega arith) (omega arith)

release_one : sem_release true (fifo_with 1 0) ≡ (returns 0, fifo_with 1 1)
unfolding sem_release
release_one = refl

-- The holder gives the semaphore back, and the last descriptor is closed: the token is lost.
given_back : Reachable (shared 1 1 0)
given_back =
    let held : Reachable (shared 1 0 1) = all_hold 1 (omega arith) (omega arith) in
    then_step held (releases (fifo_with 1 1) 0 refl release_one)

lost : (sem_destroy true (fifo_with 1 1)).1 ≡ fifo_with 0 0
unfolding sem_destroy
lost = refl
