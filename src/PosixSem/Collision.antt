-- ===== src/PosixSem/Collision.antt =====
-- Names that share a key in chapter_53/posix_sem.c.
use tlpi_solutions.Common.{
  ℕ, ◌<◌, ◌≡◌, refl, Bool, true, false, some, List, ◌++◌, arith, length, take, ◌==◌,
}
use tlpi_solutions.PosixSem.{Object, Metadata, Kernel, ok, sem_magic, name_max}
use tlpi_solutions.PosixSem.Name.{Files, prefix, project, name_to_key}
use tlpi_solutions.PosixSem.Open.{Flags, sem_open, open_checked, open_existing, finish_open}
use tlpi_solutions.PosixSem.Lifecycle.{granted, handle, path_of, check_path}

-- The file of a name cannot be opened, such as one in a folder that is not there.
abbrev pub has_file : Files → List ℕ → Bool
has_file files name = files.opens (take 255 (prefix ++ name))

same_key :
    (files : Files) (a b : List ℕ)
    → has_file files a ≡ false
    → has_file files b ≡ false
    → project a ≡ project b
    → name_to_key files a ≡ name_to_key files b
unfolding name_to_key
same_key files a b ea eb p = ground arith

-- Two names with the same first byte for which no file can be opened: where the semaphore of one of
-- them exists and is not unlinked, sem_open() of the other without flags opens it.
pub open_other_name :
    (files : Files) (k : Kernel) (a b : List ℕ) (i m i' m' : ℕ) (f : Flags) (o : Object Metadata)
    → has_file files a ≡ false
    → has_file files b ≡ false
    → project a ≡ project b
    → k.sems.ids (name_to_key files a) ≡ some i
    → k.shms.ids (name_to_key files a) ≡ some m
    → k.shms.object m ≡ some o
    → o.content.initialized ≡ sem_magic
    → o.content.unlinked ≡ false
    → length b < name_max
    → f.o_creat ≡ false
    → f.o_excl ≡ false
    → (sem_open files granted i' m' (λ x. x) (path_of b) f k).0 ≡ ok (handle i m b)
unfolding sem_open open_checked open_existing finish_open
open_other_name files k a b i m i' m' f o ea eb p sem shm at magic linked short plain shared =
    let key = same_key files a b ea eb p in
    let sem_b : k.sems.ids (name_to_key files b) ≡ some i = rw (← key) sem in
    let shm_b : k.shms.ids (name_to_key files b) ≡ some m = rw (← key) shm in
    let right : (o.content.initialized == sem_magic) ≡ true = rw magic refl in
    rw (check_path b short, sem_open, plain, sem_b, shm_b, shared, at, right, linked) refl
