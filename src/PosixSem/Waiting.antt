-- ===== src/PosixSem/Waiting.antt =====
-- How sem_wait() and sem_timedwait() of chapter_53/posix_sem.c end.
use tlpi_solutions.Common.{
  ℕ, ◌-◌, ◌<◌, ◌≡◌, ◌⊎◌, refl, ap, ◌∙◌, none, some, List, [], ◌∷◌, ◌++◌, ◌==◌, arith, Bool-cases,
  Option-cases, inl, inr,
}
use tlpi_solutions.PosixSem.{
  Object, Kernel, PosixSem, ok, err, Errno, einval, eagain, eidrm, decrement, put,
}
use tlpi_solutions.PosixSem.Operations.{
  Wake, signal, change, Waited, returned, blocked, tried, attempt, wait_loop, sem_wait,
}

-- The state after all that happens.
unfoldable pub after : List Wake → Kernel → Kernel
after [] k = k
after (signal ∷ ws) k = after ws k
after (change f ∷ ws) k = after ws (f k)

abbrev pub IsGone : Errno → Type 0
IsGone e = (e ≡ einval) ⊎ (e ≡ eidrm)

-- The set with one less.
abbrev pub Takes : Kernel → ℕ → Kernel → Type 0
Takes k i k' =
    (o : Object ℕ) × (k.sems.object i ≡ some o)
    × (0 < o.content)
    × (k' ≡ record k { sems = put k.sems i (o.content - 1) })

-- How a wait on the set `i` from the state `k` ends, while `ws` happen: it has taken one from the
-- set, has failed as `Fails` says and changed nothing, or is blocked with the set at 0.
abbrev pub Ends : (Kernel → ℕ → Errno → Type 0) → List Wake → Kernel → ℕ → Waited → Type 0
Ends Fails ws k i (returned r k' rest) =
    (used : List Wake) × (ws ≡ used ++ rest)
    × (((r ≡ ok tt) × Takes (after used k) i k')
        ⊎ ((e : Errno) × (r ≡ err e) × Fails (after used k) i e × (k' ≡ after used k)))
Ends Fails ws k i (blocked k') =
    (k' ≡ after ws k) × ((o : Object ℕ) × (k'.sems.object i ≡ some o) × (o.content ≡ 0))

-- The set is gone.
abbrev pub Vanished : Kernel → ℕ → Errno → Type 0
Vanished k i e = IsGone e × (k.sems.object i ≡ none)

abbrev pub WaitsFor : List Wake → Kernel → ℕ → Waited → Type 0
WaitsFor = Ends Vanished

-- semop() by -1 with IPC_NOWAIT.
pub decrement_cases :
    (gone : Errno) (k : Kernel) (i : ℕ)
    → ((k.sems.object i ≡ none) × (decrement gone k i ≡ (err gone, k)))
      ⊎ (((o : Object ℕ) × (k.sems.object i ≡ some o)
            × (o.content ≡ 0)
            × (decrement gone k i ≡ (err eagain, k)))
          ⊎ ((k' : Kernel) × Takes k i k' × (decrement gone k i ≡ (ok tt, k'))))
unfolding decrement
decrement_cases gone k i = elim (Option-cases (k.sems.object i)) [
  | inl e ↦ inl (e, rw (e, decrement) refl)
  | inr (o, e) ↦ elim (Bool-cases (o.content == 0)) [
    | inl z ↦ inr (inl (o, e, ground arith, rw (e, decrement, z) refl))
    | inr z ↦ inr (
        inr (
          record k { sems = put k.sems i (o.content - 1) },
          (o, e, ground arith, refl),
          rw (e, decrement, z) refl,
        ))
  ]
]

-- One try.
pub attempt_cases :
    (gone : Errno) (k : Kernel) (i : ℕ) (ws : List Wake) (b : Waited)
    → IsGone gone
    → ((k.sems.object i ≡ none) × (attempt gone k i ws b ≡ returned (err gone) k ws))
      ⊎ (((o : Object ℕ) × (k.sems.object i ≡ some o)
            × (o.content ≡ 0)
            × (attempt gone k i ws b ≡ b))
          ⊎ ((k' : Kernel) × Takes k i k' × (attempt gone k i ws b ≡ returned (ok tt) k' ws)))
unfolding attempt tried
attempt_cases gone k i ws b g = elim (decrement_cases gone k i) [
  | inl (e, d) ↦ elim g [
    | inl x ↦ inl (e, ap (λ r. tried r ws b) d ∙ rw x refl)
    | inr x ↦ inl (e, ap (λ r. tried r ws b) d ∙ rw x refl)
  ]
  | inr (inl (o, e, z, d)) ↦ inr (inl (o, e, z, ap (λ r. tried r ws b) d))
  | inr (inr (k', t, d)) ↦ inr (inr (k', t, ap (λ r. tried r ws b) d))
]

module _ (Fails : Kernel → ℕ → Errno → Type 0) where
  pub later-Ends :
      (w : Wake) (ws : List Wake) (k : Kernel) (i : ℕ) (out : Waited)
      → Ends Fails ws (after (w ∷ []) k) i out
      → Ends Fails (w ∷ ws) k i out
  unfolding after
  later-Ends signal ws k i (returned r k' rest) (used, e, how) =
      (signal ∷ used, ap (λ l. signal ∷ l) e, how)
  later-Ends (change f) ws k i (returned r k' rest) (used, e, how) =
      (change f ∷ used, ap (λ l. change f ∷ l) e, how)
  later-Ends signal ws k i (blocked k') w = w
  later-Ends (change f) ws k i (blocked k') w = w

  -- A try ends the wait, or it goes on.
  pub try-Ends :
      (gone : Errno) (k : Kernel) (i : ℕ) (ws : List Wake) (b : Waited)
      → IsGone gone
      → (k.sems.object i ≡ none → Fails k i gone)
      → ((o : Object ℕ) → k.sems.object i ≡ some o → o.content ≡ 0 → Ends Fails ws k i b)
      → Ends Fails ws k i (attempt gone k i ws b)
  unfolding after
  try-Ends gone k i ws b g fails goes_on = elim (attempt_cases gone k i ws b g) [
    | inl (e, x) ↦ rw x ([], refl, inr (gone, refl, fails e, refl))
    | inr (inl (o, e, z, x)) ↦ rw x (goes_on o e z)
    | inr (inr (k', t, x)) ↦ rw x ([], refl, inl (refl, t))
  ]

loop-WaitsFor :
    (ws : List Wake) (gone : Errno) (k : Kernel) (i : ℕ)
    → IsGone gone
    → WaitsFor ws k i (wait_loop ws gone k i)
unfolding wait_loop after
loop-WaitsFor [] gone k i g =
    try-Ends Vanished gone k i [] (blocked k) g (λ e. (g, e)) (λ o e z. (refl, (o, e, z)))
loop-WaitsFor (signal ∷ ws) gone k i g =
    try-Ends Vanished gone k i (signal ∷ ws) (wait_loop ws einval k i) g (λ e. (g, e))
      (λ o e z.
        later-Ends Vanished signal ws k i (wait_loop ws einval k i)
          (loop-WaitsFor ws einval k i (inl refl)))
loop-WaitsFor (change f ∷ ws) gone k i g =
    try-Ends Vanished gone k i (change f ∷ ws) (wait_loop ws eidrm (f k) i) g (λ e. (g, e))
      (λ o e z.
        later-Ends Vanished (change f) ws k i (wait_loop ws eidrm (f k) i)
          (loop-WaitsFor ws eidrm (f k) i (inr refl)))

-- Whatever signals come and whatever other processes do meanwhile: sem_wait() on an open semaphore
-- returns 0 after it has taken one from a positive value, or it returns an error because the set
-- is not there, and changes nothing; or it is blocked, and the value is 0.
pub sem_wait-WaitsFor :
    (ws : List Wake) (sem : PosixSem) (k : Kernel)
    → WaitsFor ws k sem.semid (sem_wait ws (some sem) k)
unfolding sem_wait
sem_wait-WaitsFor ws sem k = loop-WaitsFor ws einval k sem.semid (inl refl)
