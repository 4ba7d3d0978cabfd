-- ===== src/PosixSem/Handles.antt =====
-- The handles of processes before and after sem_open() of chapter_53/posix_sem.c.
use tlpi_solutions.Common.{
  ℕ, ◌≤◌, ◌≡◌, refl, false, none, some, List, [], ◌∷◌, ◌==◌, arith, ◌⊎◌, Bool-cases, inl, inr,
}
use tlpi_solutions.PosixSem.{PosixSem, Kernel, Result, ok, err, Errno}
use tlpi_solutions.PosixSem.Validity.{uses, AllLive, IsValid}
use tlpi_solutions.PosixSem.Open.{Grants, finish_open}

pub Result-cases :
    {A : Type 0} (r : Result A) → ((e : Errno) × (r ≡ err e)) ⊎ ((a : A) × (r ≡ ok a))
Result-cases (ok a) = inr (a, refl)
Result-cases (err e) = inl (e, refl)

-- The handles after a call of sem_open().
abbrev pub opened : Result PosixSem → List PosixSem → List PosixSem
opened (ok h) hs = h ∷ hs
opened (err e) hs = hs

-- A call that may have opened a semaphore leaves a valid state.
abbrev pub Opens : ℕ → List PosixSem → Result PosixSem × Kernel → Type 0
Opens n hs r = IsValid n r.1 (opened r.0 hs)

pub uses-tail : (m : ℕ) (h : PosixSem) (hs : List PosixSem) → uses m hs ≤ uses m (h ∷ hs)
unfolding uses
uses-tail m h hs = ground arith

pub tail-IsValid :
    (n : ℕ) (k : Kernel) (h : PosixSem) (hs : List PosixSem) → IsValid n k (h ∷ hs) → IsValid n k hs
tail-IsValid n k h hs v = record {
  sems = v.sems;
  shms = v.shms;
  paired = v.paired;
  segments = λ m o e.
      (let c = v.segments m o e in
        record {
          counted = omega (arith, uses-tail m h hs, c.counted);
          bounded = c.bounded;
          magic = c.magic;
        });
  live = v.live.1;
}

pub uses-fresh :
    (k : Kernel) (m : ℕ) (hs : List PosixSem)
    → AllLive k hs
    → k.shms.object m ≡ none
    → uses m hs ≡ 0
unfolding uses
uses-fresh k m [] w e = refl
uses-fresh k m (h ∷ hs) w e =
    let (o, at, there) = w.0 in
    let apart : (h.shmid == m) ≡ false = (elim (Bool-cases (h.shmid == m)) [
      | inr x ↦ x
      | inl x ↦
          let s : h.shmid ≡ m = ground arith in
          let at_m : k.shms.object m ≡ some o = rw s at at in absurd (cc)
    ]) in
    rw apart (uses-fresh k m hs w.1 e)

pub finish-Opens :
    (g : Grants) (i m : ℕ) (name : List ℕ) (n : ℕ) (k : Kernel) (hs : List PosixSem)
    → IsValid n k (record { semid = i; shmid = m; name = name; ref_count = 1 } ∷ hs)
    → Opens n hs (finish_open g i m name k)
unfolding finish_open
finish-Opens g i m name n k hs v = elim (Bool-cases g.strdup) [
  | inl yes_name ↦ rw yes_name v
  | inr no_name ↦ rw no_name (tail-IsValid n k _ hs v)
]
