-- ===== src/PosixSem.antt =====
-- chapter_53/posix_sem.c: POSIX semaphores on top of System V ones. This file has the state that
-- the kernel keeps and the calls of it that the program makes; the children have the functions. A
-- function is one step, unless it says what other processes do in between.
pub mod Tables
pub mod Name
pub mod Open
pub mod Close
pub mod Operations
pub mod Timed
pub mod OpenCases
pub mod Validity
pub mod Handles
pub mod KeepsOpen
pub mod KeepsClose
pub mod Run
pub mod Lifecycle
pub mod Collision
pub mod Counting
pub mod Waiting
pub mod Deadline
pub mod TimedWait
mod Examples
use tlpi_solutions.Common.{
  ℕ, ◌+◌, ◌-◌, Bool, true, false, Option, none, some, List, ◌==◌, leb, if◌then◌else◌,
}

-- `other` is what a call of the kernel left in errno where the program does not look at it.
pub data Errno : Type 0 where
  einval enametoolong enomem enoent eexist eagain eintr eidrm erange etimedout other : Errno

pub data Result (A : Type 0) : Type 0 where
  ok : A → Result A
  err : Errno → Result A

-- An object of System V with its key. A table finds objects by their keys and by their ids.
pub record Object (A : Type 0) : Type 0 where
  pub key : ℕ
  pub content : A

pub record Table (A : Type 0) : Type 0 where
  pub ids : ℕ → Option ℕ
  pub object : ℕ → Option (Object A)

module _ {A : Type 0} where
  abbrev pub update : (ℕ → Option A) → ℕ → Option A → ℕ → Option A
  update f i v j = if j == i then v else f j

  -- a new object with the id `i`
  unfoldable pub create : Table A → ℕ → ℕ → A → Table A
  create t key i content = record {
    ids = λ k. if k == key then some i else t.ids k;
    object = λ j. if j == i then some (record { key = key; content = content }) else t.object j;
  }

  -- the content of an object
  unfoldable pub put : Table A → ℕ → A → Table A
  put t i content = elim (t.object i) [
    | none ↦ t
    | some o ↦ record t {
      object = λ j. if j == i then some (record { key = o.key; content = content }) else t.object j;
    }
  ]

  -- IPC_RMID
  unfoldable pub remove : Table A → ℕ → Table A
  remove t i = elim (t.object i) [
    | none ↦ t
    | some o ↦ record {
      ids = λ k. if k == o.key then none else t.ids k;
      object = λ j. if j == i then none else t.object j;
    }
  ]

abbrev pub sem_magic : ℕ
sem_magic = 0x53454D00

abbrev pub name_max : ℕ
name_max = 255

abbrev pub sem_value_max : ℕ
sem_value_max = 2147483647

-- An `int` that is not negative is its value, and another is above `int_max`.
abbrev pub int_mod : ℕ
int_mod = 4294967296

-- struct sem_metadata
pub record Metadata : Type 0 where
  pub initialized : ℕ
  pub unlinked : Bool
  pub ref_count : ℕ
  pub mode : ℕ
  pub name : List ℕ

-- struct posix_sem
pub record PosixSem : Type 0 where
  pub semid : ℕ
  pub shmid : ℕ
  pub name : List ℕ
  pub ref_count : ℕ

-- The sets of one semaphore, with their values, and the segments.
pub record Kernel : Type 0 where
  pub sems : Table ℕ
  pub shms : Table Metadata

-- The largest value of a System V semaphore.
abbrev pub sem_vmx : ℕ
sem_vmx = 32767

-- semop() by -1 with IPC_NOWAIT; `gone` is the error where there is no such set.
unfoldable pub decrement : Errno → Kernel → ℕ → Result (Unit {0}) × Kernel
decrement gone k semid = elim (k.sems.object semid) [
  | none ↦ (err gone, k)
  | some o ↦
      if o.content == 0
      then (err eagain, k)
      else (ok tt, record k { sems = put k.sems semid (o.content - 1) })
]

-- semop() by 1
unfoldable pub increment : Kernel → ℕ → Result (Unit {0}) × Kernel
increment k semid = elim (k.sems.object semid) [
  | none ↦ (err einval, k)
  | some o ↦
      if leb sem_vmx o.content
      then (err erange, k)
      else (ok tt, record k { sems = put k.sems semid (o.content + 1) })
]
