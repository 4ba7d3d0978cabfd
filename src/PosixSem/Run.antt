-- ===== src/PosixSem/Run.antt =====
-- Any calls of chapter_53/posix_sem.c by any processes, one after another.
use tlpi_solutions.Common.{
  ℕ, zero, suc, ◌+◌, ◌<◌, ◌≡◌, refl, sym, ap, ◌∙◌, subst, Bool, Option, none, some, List, [], ◌∷◌,
  ◌==◌, if◌then◌else◌, arith, Option-cases, inl, inr, length, ◌>>=◌,
}
use tlpi_solutions.PosixSem.{PosixSem, Kernel, int_mod}
use tlpi_solutions.PosixSem.Tables.{some_injective}
use tlpi_solutions.PosixSem.Validity.{uses, AllLive, IsValid, IsValid-mono}
use tlpi_solutions.PosixSem.Name.{Files}
use tlpi_solutions.PosixSem.Open.{Flags, Grants, sem_open}
use tlpi_solutions.PosixSem.Close.{sem_close, sem_unlink}
use tlpi_solutions.PosixSem.Operations.{sem_trywait, sem_post}
use tlpi_solutions.PosixSem.Handles.{opened}
use tlpi_solutions.PosixSem.KeepsOpen.{sem_open-Opens}
use tlpi_solutions.PosixSem.KeepsClose.{
  sem_close-IsValid, sem_unlink-IsValid, sem_trywait-IsValid, sem_post-IsValid,
}

-- The kernel, and the handles that processes have open.
pub record System : Type 0 where
  pub kernel : Kernel
  pub handles : List PosixSem

-- A call, on the handle with an index where it is on one; sem_open() with the ids that the kernel
-- would give to a new set and a new segment.
pub data Call : Type 0 where
  opens : Option (List ℕ) → Flags → Grants → (semid shmid : ℕ) → Call
  closes : ℕ → Bool → Call
  unlinks : Option (List ℕ) → Bool → Call
  posts trywaits : ℕ → Call

-- A handle, and the others.
unfoldable pub pick : ℕ → List PosixSem → Option (PosixSem × List PosixSem)
pick i [] = none
pick zero (h ∷ hs) = some (h, hs)
pick (suc i) (h ∷ hs) = pick i hs >>= λ r. some (r.0, h ∷ r.1)

abbrev pub IsFresh : Kernel → Call → Type 0
IsFresh k (opens path f g semid shmid) = (k.sems.object semid ≡ none) × (k.shms.object shmid ≡ none)
IsFresh k (closes i attaches) = Unit {0}
IsFresh k (unlinks path attaches) = Unit {0}
IsFresh k (posts i) = Unit {0}
IsFresh k (trywaits i) = Unit {0}

module _ (files : Files) where
  -- A call on a handle that is not open does not take place.
  unfoldable pub step : System → Call → System
  step s (opens path f g semid shmid) =
      let (r, k) = sem_open files g semid shmid (λ x. x) path f s.kernel in
      record { kernel = k; handles = opened r s.handles }
  step s (closes i attaches) = elim (pick i s.handles) [
    | none ↦ s
    | some (h, hs) ↦ record { kernel = (sem_close attaches (some h) s.kernel).1; handles = hs }
  ]
  step s (unlinks path attaches) = record s { kernel = (sem_unlink files attaches path s.kernel).1 }
  step s (posts i) = elim (pick i s.handles) [
    | none ↦ s
    | some (h, hs) ↦ record s { kernel = (sem_post (some h) s.kernel).1 }
  ]
  step s (trywaits i) = elim (pick i s.handles) [
    | none ↦ s
    | some (h, hs) ↦ record s { kernel = (sem_trywait (some h) s.kernel).1 }
  ]

  unfoldable pub run : System → List Call → System
  run s [] = s
  run s (c ∷ cs) = run (step s c) cs

  -- New ids are not in use when they are given.
  abbrev pub AllFresh : System → List Call → Type 0
  AllFresh s [] = Unit {0}
  AllFresh s (c ∷ cs) = IsFresh s.kernel c × AllFresh (step s c) cs

-- A kernel without semaphores and segments.
abbrev pub no_objects : Kernel
no_objects = record {
  sems = record { ids = λ k. none; object = λ i. none };
  shms = record { ids = λ k. none; object = λ i. none };
}

abbrev pub start : System
start = record { kernel = no_objects; handles = [] }

start-IsValid : IsValid 0 no_objects []
start-IsValid = record {
  sems = record { found = λ k i e. cc; named = λ i o e. cc };
  shms = record { found = λ k i e. cc; named = λ i o e. cc };
  paired = λ k. refl;
  segments = λ m o e. cc;
  live = tt;
}

swap-uses :
    (m : ℕ) (h g : PosixSem) (r : List PosixSem)
    → uses m (h ∷ g ∷ r) ≡ (if g.shmid == m then uses m (h ∷ r) + 1 else uses m (h ∷ r))
unfolding uses
swap-uses m h g r = ground arith

-- A handle further down.
pick-inv :
    (i : ℕ) (g : PosixSem) (hs : List PosixSem) {h : PosixSem} {r : List PosixSem}
    → pick (suc i) (g ∷ hs) ≡ some (h, r)
    → (r' : List PosixSem) × (pick i hs ≡ some (h, r')) × (r ≡ g ∷ r')
unfolding pick
pick-inv i g hs {h} {r} e = elim (Option-cases (pick i hs)) [
  | inl stop ↦ absurd (cc (rw (stop, ◌>>=◌) at e))
  | inr ((x, r'), at) ↦
      let now : some (x, g ∷ r') ≡ some (h, r) = rw at at e in
      let pair = some_injective now in
      (r', at ∙ ap some (ap (λ y. (y.0, r')) pair), sym (ap (λ y. y.1) pair))
]

pick-uses :
    (m i : ℕ) (hs : List PosixSem) {h : PosixSem} {r : List PosixSem}
    → pick i hs ≡ some (h, r)
    → uses m (h ∷ r) ≡ uses m hs
unfolding pick uses
pick-uses m i [] e = cc
pick-uses m zero (g ∷ hs) e = ground arith
pick-uses m (suc i) (g ∷ hs) {h} {r} e =
    let (r', at, same) = pick-inv i g hs e in
    let rest : uses m (h ∷ r') ≡ uses m hs = pick-uses m i hs at in
    rw same (swap-uses m h g r' ∙ ap (λ x. if g.shmid == m then x + 1 else x) rest)

pick-AllLive :
    (k : Kernel) (i : ℕ) (hs : List PosixSem) {h : PosixSem} {r : List PosixSem}
    → pick i hs ≡ some (h, r)
    → AllLive k hs
    → AllLive k (h ∷ r)
unfolding pick
pick-AllLive k i [] e w = cc
pick-AllLive k zero (g ∷ hs) {h} {r} e w =
    let pair = some_injective e in subst (λ y. AllLive k (y.0 ∷ y.1)) pair w
pick-AllLive k (suc i) (g ∷ hs) e w =
    let (r', at, same) = pick-inv i g hs e in
    let (first, rest) = pick-AllLive k i hs at w.1 in rw same (first, (w.0, rest))

pick-IsValid :
    (n : ℕ) (k : Kernel) (i : ℕ) (hs : List PosixSem) {h : PosixSem} {r : List PosixSem}
    → pick i hs ≡ some (h, r)
    → IsValid n k hs
    → IsValid n k (h ∷ r)
pick-IsValid n k i hs e v = record {
  sems = v.sems;
  shms = v.shms;
  paired = v.paired;
  segments = λ m o at.
      (let c = v.segments m o at in
        record {
          counted = omega (arith, c.counted, pick-uses m i hs e);
          bounded = c.bounded;
          magic = c.magic;
        });
  live = pick-AllLive k i hs e v.live;
}

module _ (files : Files) where
  step-IsValid :
      (n : ℕ) (s : System) (c : Call)
      → IsFresh s.kernel c
      → n + 1 < int_mod
      → IsValid n s.kernel s.handles
      → IsValid (n + 1) (step files s c).kernel (step files s c).handles
  unfolding step
  step-IsValid n s (opens path f g i m) fresh small v =
      sem_open-Opens files g i m n (λ x. x) s.kernel s.handles v v small fresh.0 fresh.1 path f
  step-IsValid n s (closes i attaches) fresh small v = elim (Option-cases (pick i s.handles)) [
    | inl e ↦ rw (e, step) (IsValid-mono n (n + 1) s.kernel s.handles (omega arith) v)
    | inr ((h, hs), e) ↦
        rw (e, step)
          (sem_close-IsValid (n + 1) s.kernel hs small attaches h (
            IsValid-mono n (n + 1) s.kernel (h ∷ hs) (omega arith)
              (pick-IsValid n s.kernel i s.handles e v)))
  ]
  step-IsValid n s (unlinks path attaches) fresh small v =
      sem_unlink-IsValid (n + 1) s.kernel s.handles small files attaches path
        (IsValid-mono n (n + 1) s.kernel s.handles (omega arith) v)
  step-IsValid n s (posts i) fresh small v =
      let later = IsValid-mono n (n + 1) s.kernel s.handles (omega arith) v in
      elim (Option-cases (pick i s.handles)) [
        | inl e ↦ rw (e, step) later
        | inr ((h, hs), e) ↦
            rw (e, step) (sem_post-IsValid (n + 1) s.kernel s.handles small (some h) later)
      ]
  step-IsValid n s (trywaits i) fresh small v =
      let later = IsValid-mono n (n + 1) s.kernel s.handles (omega arith) v in
      elim (Option-cases (pick i s.handles)) [
        | inl e ↦ rw (e, step) later
        | inr ((h, hs), e) ↦
            rw (e, step) (sem_trywait-IsValid (n + 1) s.kernel s.handles small (some h) later)
      ]

  run_from-IsValid :
      (n : ℕ) (s : System) (cs : List Call)
      → AllFresh files s cs
      → n + length cs < int_mod
      → IsValid n s.kernel s.handles
      → IsValid (n + length cs) (run files s cs).kernel (run files s cs).handles
  unfolding run
  run_from-IsValid n s [] fresh small v = IsValid-mono n (n + 0) s.kernel s.handles (omega arith) v
  run_from-IsValid n s (c ∷ cs) fresh small v =
      let e : n + length (c ∷ cs) ≡ n + 1 + length cs = omega arith in
      rw e (
        run_from-IsValid (n + 1) (step files s c) cs fresh.1 (omega arith)
          (step-IsValid n s c fresh.0 (omega arith) v))

  -- Where the kernel gives new ids that are not in use, and less than 2^32 calls of sem_open(),
  -- sem_close(), sem_unlink(), sem_post() and sem_trywait() run one after another from a kernel
  -- without objects, whatever resources they are refused: keys and objects agree, sets and segments
  -- come in pairs, each segment counts at least its open handles, and the set and the segment of
  -- every open handle are there.
  pub run-IsValid :
      (cs : List Call)
      → AllFresh files start cs
      → length cs < int_mod
      → IsValid (length cs) (run files start cs).kernel (run files start cs).handles
  run-IsValid cs fresh small =
      let e : 0 + length cs ≡ length cs = omega arith in
      rw e at (run_from-IsValid 0 start cs fresh (omega arith) start-IsValid)
