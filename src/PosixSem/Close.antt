-- ===== src/PosixSem/Close.antt =====
-- sem_close() and sem_unlink() of chapter_53/posix_sem.c.
use tlpi_solutions.Common.{
  ℕ, ◌+◌, ◌-◌, ◌%◌, Bool, true, Option, none, some, List, ◌==◌, if◌then◌else◌, not, ◌&&◌,
}
use tlpi_solutions.PosixSem.{
  einval, enoent, other, Result, ok, err, put, remove, Metadata, PosixSem, Kernel, sem_magic,
  int_mod,
}
use tlpi_solutions.PosixSem.Name.{Files, name_to_key, check_name}

-- The two removals at the end of a semaphore.
unfoldable pub destroy : ℕ → ℕ → Kernel → Kernel
destroy semid shmid k = record { sems = remove k.sems semid; shms = remove k.shms shmid }

-- The part of sem_close() in which the segment is attached.
unfoldable pub drop_reference : PosixSem → Metadata → Kernel → Kernel
unfolding destroy
drop_reference sem metadata k =
    let counted = record metadata { ref_count = (metadata.ref_count + (int_mod - 1)) % int_mod } in
    let stored = record k { shms = put k.shms sem.shmid counted } in
    if counted.ref_count == 0 && metadata.unlinked
    then destroy sem.semid sem.shmid stored
    else stored

-- sem_close(), where `none` is NULL or SEM_FAILED, and `attaches` says whether shmat() finds the
-- resources that it wants.
unfoldable pub sem_close : Bool → Option PosixSem → Kernel → Result (Unit {0}) × Kernel
unfolding drop_reference
sem_close attaches none k = (err einval, k)
sem_close attaches (some sem) k =
    if not attaches then (ok tt, k) else elim (k.shms.object sem.shmid) [
      | none ↦ (ok tt, k)
      | some o ↦ (ok tt, drop_reference sem o.content k)
    ]

-- The part of sem_unlink() in which the segment is attached.
unfoldable pub mark_unlinked : ℕ → ℕ → Metadata → Kernel → Result (Unit {0}) × Kernel
unfolding destroy
mark_unlinked semid shmid metadata k =
    let marked = record k { shms = put k.shms shmid (record metadata { unlinked = true }) } in
    if not (metadata.initialized == sem_magic)
    then (err enoent, k)
    else if metadata.ref_count == 0
    then (ok tt, destroy semid shmid marked)
    else (ok tt, marked)

unfoldable pub sem_unlink : Files → Bool → Option (List ℕ) → Kernel → Result (Unit {0}) × Kernel
unfolding mark_unlinked
sem_unlink files attaches path k = elim (check_name path) [
  | err e ↦ (err e, k)
  | ok name ↦
      let key = name_to_key files name in
      elim (k.sems.ids key) [
        | none ↦ (err enoent, k)
        | some semid ↦ elim (k.shms.ids key) [
          | none ↦ (err enoent, k)
          | some shmid ↦ if not attaches then (err other, k) else elim (k.shms.object shmid) [
            | none ↦ (err other, k)
            | some o ↦ mark_unlinked semid shmid o.content k
          ]
        ]
      ]
]
