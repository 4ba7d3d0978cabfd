-- ===== src/PosixSem/TimedWait.antt =====
-- How sem_timedwait() of chapter_53/posix_sem.c ends.
use tlpi_solutions.Common.{
  ℕ, ◌≡◌, ◌≢◌, ◌⊎◌, refl, ap, Bool, Option, none, some, List, [], ◌∷◌, ◌++◌, ◌||◌, leb, Bool-cases,
  Option-cases, inl, inr,
}
use tlpi_solutions.PosixSem.{
  Kernel, PosixSem, Result, ok, err, Errno, einval, eagain, eintr, eidrm, etimedout, other,
}
use tlpi_solutions.PosixSem.Operations.{Wake, signal, change, Waited, returned, blocked, semop_wait}
use tlpi_solutions.PosixSem.Timed.{
  Timespec, second, passed, Clock, after_signal, after_semop, wait_alarm, sem_timedwait,
}
use tlpi_solutions.PosixSem.Waiting.{after, IsGone, Ends, later-Ends, try-Ends, decrement_cases}

-- The errors of a timed wait: not EAGAIN and not EINTR.
abbrev pub Refuses : Kernel → ℕ → Errno → Type 0
Refuses k i e = (e ≢ eagain) × (e ≢ eintr)

abbrev pub TimesOut : List Wake → Kernel → ℕ → Waited → Type 0
TimesOut = Ends Refuses

-- The blocking semop() fails when the set is gone or when it is interrupted.
abbrev Breaks : Kernel → ℕ → Errno → Type 0
Breaks k i e = IsGone e ⊎ (e ≡ eintr)

semop_wait-Ends :
    (ws : List Wake) (gone : Errno) (k : Kernel) (i : ℕ)
    → IsGone gone
    → Ends Breaks ws k i (semop_wait ws gone k i)
unfolding semop_wait after
semop_wait-Ends [] gone k i g =
    try-Ends Breaks gone k i [] (blocked k) g (λ e. inl g) (λ o e z. (refl, (o, e, z)))
semop_wait-Ends (signal ∷ ws) gone k i g =
    try-Ends Breaks gone k i (signal ∷ ws) (returned (err eintr) k ws) g (λ e. inl g)
      (λ o e z. (signal ∷ [], refl, inr (eintr, refl, inr refl, refl)))
semop_wait-Ends (change f ∷ ws) gone k i g =
    try-Ends Breaks gone k i (change f ∷ ws) (semop_wait ws eidrm (f k) i) g (λ e. inl g)
      (λ o e z.
        later-Ends Breaks (change f) ws k i (semop_wait ws eidrm (f k) i)
          (semop_wait-Ends ws eidrm (f k) i (inr refl)))

-- A return with an error that changes nothing.
refuses :
    (ws used rest : List Wake) (k : Kernel) (i : ℕ) (e : Errno)
    → ws ≡ used ++ rest
    → e ≢ eagain
    → e ≢ eintr
    → TimesOut ws k i (returned (err e) (after used k) rest)
refuses ws used rest k i e split a b = (used, split, inr (e, refl, (a, b), refl))

signal-TimesOut :
    (now : Option Timespec) (timeout : Timespec) (i : ℕ) (k : Kernel) (ws used rest : List Wake)
    → ws ≡ used ++ rest
    → TimesOut ws k i (after_signal now timeout i (after used k) rest)
unfolding after_signal
signal-TimesOut none timeout i k ws used rest split =
    refuses ws used rest k i other split (λ e. cc) (λ e. cc)
signal-TimesOut (some now) timeout i k ws used rest split = elim (Bool-cases (passed now timeout)) [
  | inl late ↦ rw late (refuses ws used rest k i etimedout split (λ e. cc) (λ e. cc))
  | inr early ↦ elim (decrement_cases einval (after used k) i) [
    | inl (_, e) ↦ rw (early, e) (refuses ws used rest k i einval split (λ e. cc) (λ e. cc))
    | inr (inl (_, _, _, e)) ↦
        rw (early, e) (refuses ws used rest k i etimedout split (λ e. cc) (λ e. cc))
    | inr (inr (k', t, e)) ↦ rw (early, e) (used, split, inl (refl, t))
  ]
]

error_of : Result (Unit {0}) → Errno
error_of (ok u) = other
error_of (err e) = e

err_injective : {e e' : Errno} → ◌≡◌ {A = Result (Unit {0})} (err e) (err e') → e ≡ e'
unfolding error_of
err_injective x = ap error_of x

gone-TimesOut :
    (clock : Clock) (timeout : Timespec) (ws used rest : List Wake) (i : ℕ) (k : Kernel) (e : Errno)
    → IsGone e
    → ws ≡ used ++ rest
    → TimesOut ws k i (after_semop clock timeout i (returned (err e) (after used k) rest))
unfolding after_semop
gone-TimesOut clock timeout ws used rest i k e (inl g) split =
    rw g (refuses ws used rest k i einval split (λ h. cc) (λ h. cc))
gone-TimesOut clock timeout ws used rest i k e (inr g) split =
    rw g (refuses ws used rest k i eidrm split (λ h. cc) (λ h. cc))

after_semop-TimesOut :
    (clock : Clock) (timeout : Timespec) (ws : List Wake) (i : ℕ) (k : Kernel) (out : Waited)
    → Ends Breaks ws k i out
    → TimesOut ws k i (after_semop clock timeout i out)
unfolding after_semop
after_semop-TimesOut clock timeout ws i k (blocked k') w = w
after_semop-TimesOut clock timeout ws i k (returned (ok u) k' rest) (used, split, inl t) =
    (used, split, inl t)
after_semop-TimesOut clock timeout ws i k (returned (ok u) k' rest)
      (used, split, inr (e, no_error, how, same)) =
    absurd (cc)
after_semop-TimesOut clock timeout ws i k (returned (err e) k' rest)
      (used, split, inl (no_error, t)) =
    absurd (cc)
after_semop-TimesOut clock timeout ws i k (returned (err e) k' rest)
      (used, split, inr (e', x, inl gone, same)) =
    rw (same, err_injective x) (gone-TimesOut clock timeout ws used rest i k e' gone split)
after_semop-TimesOut clock timeout ws i k (returned (err e) k' rest)
      (used, split, inr (e', x, inr hit, same)) =
    rw (same, err_injective x, hit) (signal-TimesOut clock.second timeout i k ws used rest split)

alarm-TimesOut :
    (clock : Clock) (timeout : Timespec) (ws : List Wake) (i : ℕ) (k : Kernel)
    → TimesOut ws k i (wait_alarm clock timeout ws i k)
unfolding wait_alarm after
alarm-TimesOut clock timeout ws i k = elim (Bool-cases clock.handles) [
  | inr a ↦ rw a (refuses ws [] ws k i other refl (λ e. cc) (λ e. cc))
  | inl a ↦ rw a (
      after_semop-TimesOut clock timeout ws i k (semop_wait ws einval k i)
        (semop_wait-Ends ws einval k i (inl refl)))
]

-- Whatever the clocks show, whatever signals come and whatever other processes do meanwhile:
-- sem_timedwait() on an open semaphore returns 0 after it has taken one from a positive value; or
-- it returns an error other than EAGAIN and EINTR, and changes nothing; or it is blocked, and the
-- value is 0.
pub sem_timedwait-TimesOut :
    (clock : Clock) (ws : List Wake) (sem : PosixSem) (timeout : Option Timespec) (negative : Bool)
    (k : Kernel)
    → TimesOut ws k sem.semid (sem_timedwait clock ws (some sem) timeout negative k)
unfolding sem_timedwait after
sem_timedwait-TimesOut clock ws sem none negative k =
    refuses ws [] ws k sem.semid einval refl (λ e. cc) (λ e. cc)
sem_timedwait-TimesOut clock ws sem (some timeout) negative k =
    elim (Bool-cases (negative || leb second timeout.tv_nsec)) [
      | inl bad ↦ rw bad (refuses ws [] ws k sem.semid einval refl (λ e. cc) (λ e. cc))
      | inr fine ↦ elim (Option-cases clock.first) [
        | inl e ↦ rw (fine, e) (refuses ws [] ws k sem.semid other refl (λ e. cc) (λ e. cc))
        | inr (now, e) ↦ elim (Bool-cases (passed now timeout)) [
          | inl late ↦
              rw (fine, e, late) (refuses ws [] ws k sem.semid etimedout refl (λ e. cc) (λ e. cc))
          | inr early ↦ elim (decrement_cases einval k sem.semid) [
            | inl (_, d) ↦
                rw (fine, e, early, d)
                  (refuses ws [] ws k sem.semid einval refl (λ e. cc) (λ e. cc))
            | inr (inl (_, _, _, d)) ↦
                rw (fine, e, early, d) (alarm-TimesOut clock timeout ws sem.semid k)
            | inr (inr (k', t, d)) ↦ rw (fine, e, early, d) ([], refl, inl (refl, t))
          ]
        ]
      ]
    ]
