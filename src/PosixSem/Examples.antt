-- ===== src/PosixSem/Examples.antt =====
-- Runs of chapter_53/posix_sem.c.
use tlpi_solutions.Common.{ℕ, ◌+◌, ◌≡◌, refl, true, false, some, List, [], ◌∷◌, arith}
use tlpi_solutions.PosixSem.{Metadata, PosixSem, Kernel, ok, create, put, remove, decrement}
use tlpi_solutions.PosixSem.Name.{Files, name_to_key, project, check_name}
use tlpi_solutions.PosixSem.Open.{
  Flags, sem_open, open_checked, open_missing, open_created, finish_open, new_metadata,
  open_existing,
}
use tlpi_solutions.PosixSem.Close.{sem_close, sem_unlink, drop_reference, destroy, mark_unlinked}
use tlpi_solutions.PosixSem.Operations.{Wake, signal, change, sem_wait, sem_trywait}
use tlpi_solutions.PosixSem.Timed.{Timespec, passed, Clock, sem_timedwait}
use tlpi_solutions.PosixSem.Validity.{IsValid}
use tlpi_solutions.PosixSem.Run.{
  Call, opens, closes, unlinks, trywaits, step, pick, AllFresh, run, start, no_objects, run-IsValid,
}
use tlpi_solutions.PosixSem.Lifecycle.{granted, handle, path_of, with_pair, open-unlink-close}
use tlpi_solutions.PosixSem.Counting.{post, trywait, run_ops, HasValue, value_conserved}
use tlpi_solutions.PosixSem.Waiting.{after, WaitsFor, sem_wait-WaitsFor}
use tlpi_solutions.PosixSem.TimedWait.{TimesOut, sem_timedwait-TimesOut}

-- No file can be opened, and a key is the project number.
abbrev files : Files
files = record { opens = λ p. false; ftok = λ p n. n }

abbrev jobs : List ℕ
jobs = b'j' ∷ b'o' ∷ b'b' ∷ b's' ∷ []

abbrev joints : List ℕ
joints = b'j' ∷ b'/' ∷ b't' ∷ []

abbrev create_two : Flags
create_two = record { o_creat = true; o_excl = false; mode = 384; value = 2 }

abbrev plain : Flags
plain = record { o_creat = false; o_excl = false; mode = 0; value = 0 }

-- A process creates a semaphore, and another opens it; one waits, both close it, and it is unlinked.
abbrev calls : List Call
calls =
    opens (path_of jobs) create_two granted 4 7
    ∷ opens (path_of jobs) plain granted 5 8
    ∷ trywaits 1
    ∷ closes 0 true
    ∷ unlinks (path_of jobs) true
    ∷ closes 0 true
    ∷ []

calls-AllFresh : AllFresh files start calls
unfolding sem_open check_name open_checked open_missing open_created finish_open new_metadata
    open_existing name_to_key project create put remove step pick sem_trywait decrement sem_close
    drop_reference destroy sem_unlink mark_unlinked
calls-AllFresh = ((refl, refl), ((refl, refl), (tt, (tt, (tt, (tt, tt))))))

run-IsValid_example : IsValid 6 (run files start calls).kernel (run files start calls).handles
run-IsValid_example = run-IsValid files calls calls-AllFresh (omega arith)

open-unlink-close_example :
    (let (opened, k1) = sem_open files granted 4 7 (λ x. x) (path_of jobs) create_two no_objects in
      let (u, k2) = sem_unlink files true (path_of jobs) k1 in
      let (c, k3) = sem_close true (some (handle 4 7 jobs)) k1 in
      (opened ≡ ok (handle 4 7 jobs))
      × (u ≡ ok tt)
      × (sem_close true (some (handle 4 7 jobs)) k2 ≡ (ok tt, no_objects))
      × (c ≡ ok tt)
      × (sem_unlink files true (path_of jobs) k3 ≡ (ok tt, no_objects)))
open-unlink-close_example =
    open-unlink-close files no_objects create_two jobs 4 7 (omega arith) refl (omega arith) refl
      refl refl refl

abbrev metadata : Metadata
metadata = record {
  initialized = 0x53454D00;
  unlinked = false;
  ref_count = 1;
  mode = 384;
  name = jobs;
}

-- The semaphore alone, with a value.
abbrev jobs_at : ℕ → Kernel
jobs_at value = with_pair no_objects b'j' 4 7 value metadata

abbrev jobs_handle : PosixSem
jobs_handle = handle 4 7 jobs

jobs-object :
    (value : ℕ)
    → ((jobs_at value).sems.ids b'j' ≡ some 4)
      × ((jobs_at value).shms.ids b'j' ≡ some 7)
      × ((jobs_at value).sems.object 4 ≡ some (record { key = b'j'; content = value }))
      × ((jobs_at value).shms.object 7 ≡ some (record { key = b'j'; content = metadata }))
unfolding create
jobs-object value = (refl, refl, refl, refl)

same_project : project jobs ≡ project joints
unfolding project
same_project = refl

jobs-key : name_to_key files jobs ≡ b'j'
unfolding name_to_key project
jobs-key = refl

value_conserved_example :
    (y : ℕ) × HasValue
      (run_ops (post jobs_handle ∷ trywait jobs_handle ∷ []) (jobs_at 5)).kernel
      4
      y
    × (y + (run_ops (post jobs_handle ∷ trywait jobs_handle ∷ []) (jobs_at 5)).waited
        ≡ 5 + (run_ops (post jobs_handle ∷ trywait jobs_handle ∷ []) (jobs_at 5)).posted)
value_conserved_example =
    value_conserved (post jobs_handle ∷ trywait jobs_handle ∷ []) (jobs_at 5) 4 5 (refl, (refl, tt))
      (record { key = b'j'; content = 5 }, (jobs-object 5).2, refl, omega arith)

-- A signal comes, and another process posts.
abbrev wakes : List Wake
wakes = signal ∷ change (λ k. jobs_at 1) ∷ []

sem_wait-WaitsFor_example :
    WaitsFor wakes (jobs_at 0) 4 (sem_wait wakes (some jobs_handle) (jobs_at 0))
sem_wait-WaitsFor_example = sem_wait-WaitsFor wakes jobs_handle (jobs_at 0)

woken : (after wakes (jobs_at 0)).sems.object 4 ≡ some (record { key = b'j'; content = 1 })
unfolding after create
woken = refl

abbrev at_ten : Timespec
at_ten = record { tv_sec = 10; tv_nsec = 500 }

abbrev at_twelve : Timespec
at_twelve = record { tv_sec = 12; tv_nsec = 100 }

abbrev clock : Clock
clock = record { first = some at_ten; handles = true; second = some at_twelve }

sem_timedwait-TimesOut_example :
    TimesOut wakes
      (jobs_at 0)
      4
      (sem_timedwait clock wakes (some jobs_handle) (some at_twelve) false (jobs_at 0))
sem_timedwait-TimesOut_example =
    sem_timedwait-TimesOut clock wakes jobs_handle (some at_twelve) false (jobs_at 0)

before : passed at_ten at_twelve ≡ false
unfolding passed
before = refl
