-- ===== src/DirService.antt =====
-- chapter_48/dir_service/dir_service.c: a directory of names and values in System V shared memory,
-- behind a semaphore. A C string is the list of its bytes before the NUL; an array is the list of
-- all its bytes. Each function is one step, which is what the semaphore is for.
pub mod Strings
pub mod Table
pub mod Loops
pub mod Laws
pub mod Invariant
pub mod Calls
pub mod LongNames
pub mod Resources
mod Examples
use tlpi_solutions.Common.{
  ℕ, zero, suc, ◌+◌, ◌-◌, Bool, true, false, ◌&&◌, ◌||◌, Option, none, some, List, [], ◌∷◌, ◌++◌,
  ◌==◌, if◌then◌else◌, not, length, take, drop, replicate, set,
}

abbrev pub name_len : ℕ
name_len = 32

abbrev pub value_len : ℕ
value_len = 128

abbrev pub max_entries : ℕ
max_entries = 128

pub record Entry : Type 0 where
  pub name : List ℕ
  pub value : List ℕ
  pub in_use : Bool

abbrev pub Directory : Type 0
Directory = List Entry

-- `n` bytes of a string: the string, cut or filled up with zeros.
pub pad : ℕ → List ℕ → List ℕ
pad zero src = []
pad (suc n) [] = 0 ∷ pad n []
pad (suc n) (c ∷ src) = c ∷ pad n src

-- strncpy(dst, src, n)
pub strncpy : List ℕ → List ℕ → ℕ → List ℕ
unfolding pad
strncpy dst src n = pad n src ++ drop n dst

-- strncmp(a, b, n) == 0, where the end of a list stands for the NUL
pub strncmp_eq : ℕ → List ℕ → List ℕ → Bool
strncmp_eq zero a b = true
strncmp_eq (suc n) [] [] = true
strncmp_eq (suc n) [] (y ∷ ys) = y == 0
strncmp_eq (suc n) (x ∷ xs) [] = x == 0
strncmp_eq (suc n) (x ∷ xs) (y ∷ ys) = x == y && (x == 0 || strncmp_eq n xs ys)

-- The string that an array holds.
pub c_str : List ℕ → List ℕ
c_str [] = []
c_str (c ∷ cs) = let rest = c_str cs in if c == 0 then [] else c ∷ rest

-- strncpy(dst, src, size - 1); dst[size - 1] = '\0';
pub copy_string : List ℕ → List ℕ → ℕ → List ℕ
unfolding strncpy
copy_string dst src size = set (strncpy dst src (size - 1)) (size - 1) 0

-- entries[i].in_use && strncmp(entries[i].name, name, NAME_LEN) == 0
pub holds : List ℕ → Entry → Bool
holds name e = e.in_use && strncmp_eq name_len e.name name

-- The first loop of dir_set(): the first entry of the name gets the value.
pub update_entry : List ℕ → List ℕ → Directory → Option Directory
update_entry name value [] = none
update_entry name value (e ∷ es) = elim (holds name e) [
  | true ↦ some (record e { value = copy_string e.value value value_len } ∷ es)
  | false ↦ elim (update_entry name value es) [ none ↦ none | some es' ↦ some (e ∷ es') ]
]

-- The second loop of dir_set(): the first entry that is not in use is filled.
pub create_entry : List ℕ → List ℕ → Directory → Option Directory
create_entry name value [] = none
create_entry name value (e ∷ es) = elim e.in_use [
  | false ↦ some (
      record {
        name = copy_string e.name name name_len;
        value = copy_string e.value value value_len;
        in_use = true;
      }
      ∷ es)
  | true ↦ elim (create_entry name value es) [ none ↦ none | some es' ↦ some (e ∷ es') ]
]

-- The loop of dir_get(): the value array of the first entry of the name.
pub find_entry : List ℕ → Directory → Option (List ℕ)
find_entry name [] = none
find_entry name (e ∷ es) = elim (holds name e) [ true ↦ some e.value | false ↦ find_entry name es ]

-- The loop of dir_delete(): the first entry of the name is no longer in use.
pub delete_entry : List ℕ → Directory → Option Directory
delete_entry name [] = none
delete_entry name (e ∷ es) = elim (holds name e) [
  | true ↦ some (record e { in_use = false } ∷ es)
  | false ↦ elim (delete_entry name es) [ none ↦ none | some es' ↦ some (e ∷ es') ]
]

-- What the kernel keeps: the segment's contents, how often this process has it attached, and the
-- value of the semaphore.
pub record Service : Type 0 where
  pub dir : Directory
  pub attached : ℕ
  pub semaphore : ℕ

-- Which of the calls of shmget()/shmat(), semget(), semop() with sem_lock and with sem_unlock, and
-- shmdt() succeed. semop() with sem_lock comes back successfully only when the semaphore is above 0.
pub record Ipc : Type 0 where
  pub attaches : Bool
  pub has_semaphore : Bool
  pub locks : Bool
  pub unlocks : Bool
  pub detaches : Bool

-- the return values -1, 0 and 1
pub data Ret : Type 0 where
  ret_error ret_0 ret_1 : Ret

-- shmat() in attach_directory(), and shmdt()
pub attach_directory : Service → Service
attach_directory s = record s { attached = s.attached + 1 }

pub shmdt : Ipc → Service → Service
shmdt ipc s = if ipc.detaches then (record s { attached = s.attached - 1 }) else s

-- semop() with sem_lock and with sem_unlock
pub lock : Service → Service
lock s = record s { semaphore = s.semaphore - 1 }

pub unlock : Ipc → Service → Service
unlock ipc s = if ipc.unlocks then (record s { semaphore = s.semaphore + 1 }) else s

-- The loops of dir_set(), with the three ways out.
pub set_locked : Ipc → List ℕ → List ℕ → Service → Ret × Service
unfolding shmdt unlock
set_locked ipc name value s = elim (update_entry name value s.dir) [
  | some es ↦ (ret_0, shmdt ipc (unlock ipc (record s { dir = es })))
  | none ↦ elim (create_entry name value s.dir) [
    | some es ↦ (ret_1, shmdt ipc (unlock ipc (record s { dir = es })))
    | none ↦ (ret_error, shmdt ipc (unlock ipc s))
  ]
]

pub dir_set : Ipc → Service → List ℕ → List ℕ → Ret × Service
unfolding attach_directory shmdt lock set_locked
dir_set ipc s name value =
    if not ipc.attaches
    then (ret_error, s)
    else if not ipc.has_semaphore
    then (ret_error, shmdt ipc (attach_directory s))
    else if not ipc.locks
    then (ret_error, shmdt ipc (attach_directory s))
    else set_locked ipc name value (lock (attach_directory s))

-- The loop of dir_get(), with the two ways out: the array that it leaves in `value_out`, or `none`
-- where it leaves it alone.
pub get_locked : Ipc → List ℕ → Service → (Ret × Option (List ℕ)) × Service
unfolding pad shmdt unlock
get_locked ipc name s = elim (find_entry name s.dir) [
  | some v ↦ ((ret_0, some (pad value_len (c_str v) ++ 0 ∷ [])), shmdt ipc (unlock ipc s))
  | none ↦ ((ret_error, none), shmdt ipc (unlock ipc s))
]

pub dir_get : Ipc → Service → List ℕ → (Ret × Option (List ℕ)) × Service
unfolding attach_directory shmdt lock get_locked
dir_get ipc s name =
    if not ipc.attaches
    then ((ret_error, none), s)
    else if not ipc.has_semaphore
    then ((ret_error, none), shmdt ipc (attach_directory s))
    else if not ipc.locks
    then ((ret_error, none), shmdt ipc (attach_directory s))
    else get_locked ipc name (lock (attach_directory s))

-- The loop of dir_delete(), with the two ways out.
pub delete_locked : Ipc → List ℕ → Service → Ret × Service
unfolding shmdt unlock
delete_locked ipc name s = elim (delete_entry name s.dir) [
  | some es ↦ (ret_0, shmdt ipc (unlock ipc (record s { dir = es })))
  | none ↦ (ret_error, shmdt ipc (unlock ipc s))
]

pub dir_delete : Ipc → Service → List ℕ → Ret × Service
unfolding attach_directory shmdt lock delete_locked
dir_delete ipc s name =
    if not ipc.attaches
    then (ret_error, s)
    else if not ipc.has_semaphore
    then (ret_error, shmdt ipc (attach_directory s))
    else if not ipc.locks
    then (ret_error, shmdt ipc (attach_directory s))
    else delete_locked ipc name (lock (attach_directory s))

-- dir_init() where the segment and the semaphore are new: memset() of the segment to 0, and the
-- semaphore set to 1.
pub dir_init : Service
dir_init = record {
  dir =
      replicate max_entries
        (record { name = replicate name_len 0; value = replicate value_len 0; in_use = false });
  attached = 0;
  semaphore = 1;
}
