-- ===== src/PosixSem/Open.antt =====
-- sem_open() of chapter_53/posix_sem.c.
use tlpi_solutions.Common.{
  ℕ, ◌+◌, ◌%◌, Bool, false, Option, none, some, List, [], ◌==◌, ltb, if◌then◌else◌, not, ◌&&◌, ◌||◌,
  take,
}
use tlpi_solutions.PosixSem.{
  einval, enoent, eexist, enomem, other, Result, ok, err, create, put, remove, Metadata, PosixSem,
  Kernel, sem_magic, sem_value_max, sem_vmx, int_mod,
}
use tlpi_solutions.PosixSem.Name.{Files, name_to_key, check_name}

-- The bits O_CREAT and O_EXCL of `oflag`, and the two arguments that follow it.
pub record Flags : Type 0 where
  pub o_creat : Bool
  pub o_excl : Bool
  pub mode : ℕ
  pub value : ℕ

-- Which of the calls that can fail for lack of resources succeed.
pub record Grants : Type 0 where
  pub malloc : Bool
  pub creates_sem : Bool
  pub creates_shm : Bool
  pub sets_value : Bool
  pub attaches : Bool
  pub strdup : Bool

-- The end of sem_open(): the structure of the process.
unfoldable pub finish_open : Grants → ℕ → ℕ → List ℕ → Kernel → Result PosixSem × Kernel
finish_open g semid shmid name k =
    if g.strdup
    then (ok (record { semid = semid; shmid = shmid; name = name; ref_count = 1 }), k)
    else (err enomem, k)

-- The label existing_sem.
unfoldable pub open_existing : Grants → Bool → ℕ → ℕ → List ℕ → Kernel → Result PosixSem × Kernel
unfolding finish_open
open_existing g o_excl semid shmid name k =
    if o_excl
    then (err eexist, k)
    else if not g.attaches
    then (err other, k)
    else elim (k.shms.object shmid) [
      | none ↦ (err other, k)
      | some o ↦
          if not (o.content.initialized == sem_magic)
          then (err einval, k)
          else if o.content.unlinked
          then (err enoent, k)
          else (let counted = record o.content {
            ref_count = (o.content.ref_count + 1) % int_mod;
          } in
              finish_open g semid shmid name (record k { shms = put k.shms shmid counted }))
    ]

-- The metadata of a new semaphore.
unfoldable pub new_metadata : Flags → List ℕ → Metadata
new_metadata f name = record {
  initialized = sem_magic;
  unlinked = false;
  ref_count = 1;
  mode = f.mode;
  name = take 254 name;
}

-- A new segment is filled with zeros.
abbrev pub zeros : Metadata
zeros = record { initialized = 0; unlinked = false; ref_count = 0; mode = 0; name = [] }

-- The creation of the segment and of what follows, where the set `semid` is new.
unfoldable pub open_created :
    Grants → Flags → ℕ → ℕ → ℕ → List ℕ → Kernel → Result PosixSem × Kernel
unfolding finish_open new_metadata
open_created g f key semid shmid name k =
    let shms = create k.shms key shmid zeros in
    let valued = put k.sems semid f.value in
    if not g.creates_shm
    then (err other, record k { sems = remove k.sems semid })
    else elim (k.shms.ids key) [
      | some i ↦ (err eexist, record k { sems = remove k.sems semid })
      | none ↦
          if not g.sets_value || ltb sem_vmx f.value
          then (err other, record { sems = remove k.sems semid; shms = remove shms shmid })
          else if not g.attaches
          then (err other, record { sems = remove valued semid; shms = remove shms shmid })
          else finish_open g semid shmid name
              (record { sems = valued; shms = put shms shmid (new_metadata f name) })
    ]

-- The creation of the set; `k` is the state after what other processes do meanwhile.
unfoldable pub open_missing :
    Grants → Flags → ℕ → ℕ → ℕ → List ℕ → Kernel → Result PosixSem × Kernel
unfolding open_existing open_created
open_missing g f key semid shmid name k =
    if not g.creates_sem then (err other, k) else elim (k.sems.ids key) [
      | none ↦ open_created g f key semid shmid name (record k { sems = create k.sems key semid 0 })
      | some there ↦ if f.o_excl then (err eexist, k) else elim (k.shms.ids key) [
        | none ↦ (err enoent, k)
        | some shm ↦ open_existing g f.o_excl there shm name k
      ]
    ]

module _ (files : Files) (g : Grants) (semid shmid : ℕ) where
  -- sem_open() after the checks of its arguments. `meanwhile` is what other processes do after the
  -- first look for the objects, where they are not both there; `semid` and `shmid` are the ids that
  -- the kernel gives to new ones.
  unfoldable pub open_checked :
      (Kernel → Kernel) → Flags → List ℕ → Kernel → Result PosixSem × Kernel
  unfolding open_existing open_missing
  open_checked meanwhile f name k =
      let key = name_to_key files name in
      let missing =
        if not f.o_creat
        then (err enoent, k)
        else open_missing g f key semid shmid name (meanwhile k) in
      if not g.malloc then (err enomem, k) else elim (k.sems.ids key) [
        | none ↦ missing
        | some there ↦ elim (k.shms.ids key) [
          | none ↦ missing
          | some shm ↦ open_existing g f.o_excl there shm name k
        ]
      ]

  unfoldable pub sem_open :
      (Kernel → Kernel) → Option (List ℕ) → Flags → Kernel → Result PosixSem × Kernel
  unfolding open_checked
  sem_open meanwhile path f k = elim (check_name path) [
    | err e ↦ (err e, k)
    | ok name ↦
        if f.o_creat && ltb sem_value_max f.value
        then (err einval, k)
        else open_checked meanwhile f name k
  ]
