-- ===== src/DirService/Resources.antt =====
-- The shared memory and the semaphore in the calls of chapter_48/dir_service/dir_service.c, and
-- what a failure of the kernel does.
use tlpi_solutions.Common.{
  ℕ, ◌+◌, ◌-◌, ◌<◌, ◌≡◌, inl, inr, Bool, false, ◌&&◌, not, if◌then◌else◌, none, List, arith,
  Option-cases,
}
use tlpi_solutions.DirService.{
  Service, Ipc, ret_error, set_locked, get_locked, delete_locked, dir_set, dir_get, dir_delete,
  update_entry, create_entry, find_entry, delete_entry, lock, shmdt, attach_directory,
}

-- Every kernel call on the way in succeeds.
abbrev pub enters : Ipc → Bool
enters ipc = ipc.attaches && ipc.has_semaphore && ipc.locks

-- What a call leaves: the segment is attached as often as before, but once more where shmat()
-- succeeds and shmdt() fails; the semaphore has its value, but one less where the semop() that locks
-- succeeds and the one that unlocks fails.
abbrev pub Leaves : Ipc → Service → Service → Type 0
Leaves ipc s t =
    (t.attached ≡ (if ipc.attaches && not ipc.detaches then s.attached + 1 else s.attached))
    × (t.semaphore ≡ (if enters ipc && not ipc.unlocks then s.semaphore - 1 else s.semaphore))

-- The same from inside on: the semaphore is given back, and the segment detached.
abbrev Closes : Ipc → Service → Service → Type 0
Closes ipc s t =
    (t.attached ≡ (if ipc.detaches then s.attached - 1 else s.attached))
    × (t.semaphore ≡ (if ipc.unlocks then s.semaphore + 1 else s.semaphore))

set_locked-Closes : (ipc : Ipc) (k v : List ℕ) (t : Service) → Closes ipc t (set_locked ipc k v t).1
unfolding set_locked
set_locked-Closes ipc k v t = elim (Option-cases (update_entry k v t.dir)) [
  | inr (es, u) ↦ (ground arith, ground arith)
  | inl u ↦ elim (Option-cases (create_entry k v t.dir)) [
    | inr (es, c) ↦ (ground arith, ground arith)
    | inl c ↦ (ground arith, ground arith)
  ]
]

get_locked-Closes : (ipc : Ipc) (k : List ℕ) (t : Service) → Closes ipc t (get_locked ipc k t).1
unfolding get_locked
get_locked-Closes ipc k t = elim (Option-cases (find_entry k t.dir)) [
  | inr (a, e) ↦ (ground arith, ground arith)
  | inl e ↦ (ground arith, ground arith)
]

delete_locked-Closes :
    (ipc : Ipc) (k : List ℕ) (t : Service) → Closes ipc t (delete_locked ipc k t).1
unfolding delete_locked
delete_locked-Closes ipc k t = elim (Option-cases (delete_entry k t.dir)) [
  | inr (es, d) ↦ (ground arith, ground arith)
  | inl d ↦ (ground arith, ground arith)
]

-- What dir_set(), dir_get() and dir_delete() leave, whichever kernel calls fail, if the semaphore is
-- above 0 when they begin: the segment is attached as often as before, but once more where shmat()
-- succeeds and shmdt() fails, and the semaphore has its value, but one less where the semop() that
-- locks succeeds and the one that unlocks fails.
pub calls-Leaves :
    (ipc : Ipc) (s : Service) (k v : List ℕ)
    → 0 < s.semaphore
    → Leaves ipc s (dir_set ipc s k v).1
      × Leaves ipc s (dir_get ipc s k).1
      × Leaves ipc s (dir_delete ipc s k).1
unfolding dir_set dir_get dir_delete shmdt lock attach_directory
calls-Leaves ipc s k v up =
    let inside = lock (attach_directory s) in
    let set = set_locked-Closes ipc k v inside in
    let get = get_locked-Closes ipc k inside in
    let delete = delete_locked-Closes ipc k inside in
    (
      (ground (arith, set.0, up), ground (arith, set.1, up)),
      (ground (arith, get.0, up), ground (arith, get.1, up)),
      (ground (arith, delete.0, up), ground (arith, delete.1, up)),
    )

-- When a kernel call on the way in fails, dir_set(), dir_get() and dir_delete() return -1, the
-- directory is as before, and dir_get() does not write to its output.
pub kernel_failure :
    (ipc : Ipc) (s : Service) (k v : List ℕ)
    → enters ipc ≡ false
    → (((dir_set ipc s k v).0 ≡ ret_error) × ((dir_set ipc s k v).1.dir ≡ s.dir))
      × (((dir_get ipc s k).0 ≡ (ret_error, none)) × ((dir_get ipc s k).1.dir ≡ s.dir))
      × (((dir_delete ipc s k).0 ≡ ret_error) × ((dir_delete ipc s k).1.dir ≡ s.dir))
unfolding dir_set dir_get dir_delete
kernel_failure ipc s k v down =
    ((ground arith, ground arith), (ground arith, ground arith), (ground arith, ground arith))
