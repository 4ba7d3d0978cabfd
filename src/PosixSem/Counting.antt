-- ===== src/PosixSem/Counting.antt =====
-- The value of a semaphore of chapter_53/posix_sem.c over calls of sem_post() and sem_trywait().
use tlpi_solutions.Common.{
  ℕ, ◌+◌, ◌-◌, ◌≤◌, ◌≡◌, refl, ◌∙◌, true, some, List, [], ◌∷◌, ◌==◌, leb, arith, Bool-cases, inl,
  inr,
}
use tlpi_solutions.PosixSem.{
  Object, Kernel, PosixSem, Result, ok, err, einval, decrement, increment, sem_vmx, put,
}
use tlpi_solutions.PosixSem.Tables.{put-object}
use tlpi_solutions.PosixSem.Operations.{sem_post, sem_trywait}

-- A call of sem_post() or of sem_trywait() by some process, on its handle.
pub data Op : Type 0 where
  post trywait : PosixSem → Op

-- The handles of the operations are of the set `i`.
abbrev pub AllOn : ℕ → List Op → Type 0
AllOn i [] = Unit {0}
AllOn i (post h ∷ ops) = (h.semid ≡ i) × AllOn i ops
AllOn i (trywait h ∷ ops) = (h.semid ≡ i) × AllOn i ops

abbrev succeeded : Result (Unit {0}) → ℕ
succeeded (ok u) = 1
succeeded (err e) = 0

-- The state after the operations, and how many posts and how many waits returned 0.
pub record Tally : Type 0 where
  pub kernel : Kernel
  pub posted : ℕ
  pub waited : ℕ

unfoldable pub run_ops : List Op → Kernel → Tally
run_ops [] k = record { kernel = k; posted = 0; waited = 0 }
run_ops (post h ∷ ops) k =
    let (r, k') = sem_post (some h) k in
    let t = run_ops ops k' in record t { posted = t.posted + succeeded r }
run_ops (trywait h ∷ ops) k =
    let (r, k') = sem_trywait (some h) k in
    let t = run_ops ops k' in record t { waited = t.waited + succeeded r }

-- The set is there with a value that the kernel allows.
abbrev pub HasValue : Kernel → ℕ → ℕ → Type 0
HasValue k i x = (o : Object ℕ) × (k.sems.object i ≡ some o) × (o.content ≡ x) × (x ≤ sem_vmx)

put_value :
    (k : Kernel) (i x : ℕ) (o : Object ℕ)
    → k.sems.object i ≡ some o
    → x ≤ sem_vmx
    → HasValue (record k { sems = put k.sems i x }) i x
put_value k i x o e le =
    let self : (i == i) ≡ true = ground arith in
    (record { key = o.key; content = x }, put-object k.sems i i o x e ∙ rw self refl, refl, le)

increment_value :
    (k : Kernel) (i x : ℕ)
    → HasValue k i x
    → HasValue (increment k i).1 i (x + succeeded (increment k i).0)
unfolding increment
increment_value k i x (o, e, c, le) = elim (Bool-cases (leb sem_vmx o.content)) [
  | inl full ↦ rw (e, full, increment) (o, e, omega (arith, c), omega arith)
  | inr room ↦
      rw (e, room, increment)
        (let e' : o.content + 1 ≡ x + 1 = omega (arith, c) in
          rw (← e') (put_value k i (o.content + 1) o e (ground arith)))
]

decrement_value :
    (k : Kernel) (i x : ℕ)
    → HasValue k i x
    → (y : ℕ) × HasValue (decrement einval k i).1 i y × (y + succeeded (decrement einval k i).0 ≡ x)
unfolding decrement
decrement_value k i x (o, e, c, le) = elim (Bool-cases (o.content == 0)) [
  | inl none_left ↦
      (x, rw (e, none_left, decrement) (o, e, c, le), rw (e, none_left, decrement) (omega arith))
  | inr some_left ↦ (
    o.content - 1,
    rw (e, some_left, decrement) (put_value k i (o.content - 1) o e (omega (arith, c))),
    rw (e, some_left, decrement) (ground arith),
  )
]

-- Of a set with a value that the kernel allows: over any calls of sem_post() and of sem_trywait() on
-- it, one after another, the value at the end and the calls of sem_trywait() that returned 0 add up to
-- the value at the start and the calls of sem_post() that returned 0; the value stays in the kernel's
-- range. The calls that block, sem_wait() and sem_timedwait(), are not among them.
pub value_conserved :
    (ops : List Op) (k : Kernel) (i x : ℕ)
    → AllOn i ops
    → HasValue k i x
    → (y : ℕ) × HasValue (run_ops ops k).kernel i y
      × (y + (run_ops ops k).waited ≡ x + (run_ops ops k).posted)
unfolding run_ops sem_post sem_trywait
value_conserved [] k i x on h = (x, h, refl)
value_conserved (post p ∷ ops) k i x on h =
    let (y, there, e) = value_conserved ops (increment k i).1 i _ on.1 (increment_value k i x h) in
    rw on.0 (y, there, omega (arith, e))
value_conserved (trywait p ∷ ops) k i x on h =
    let (z, there, e) = decrement_value k i x h in
    let (y, there', e') = value_conserved ops (decrement einval k i).1 i z on.1 there in
    rw on.0 (y, there', omega (arith, e, e'))
