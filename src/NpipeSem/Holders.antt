-- ===== src/NpipeSem/Holders.antt =====
-- Processes that share the semaphore of chapter_47/npipe_sem.c.
use tlpi_solutions.Common.{
  ℕ, zero, suc, ◌+◌, ◌-◌, ◌≤◌, ◌<◌, ◌≡◌, refl, subst, true, false, ◌==◌, ltb, arith,
}
use tlpi_solutions.NpipeSem.{
  pipe_capacity, Fifo, no_fifo, returns, sem_init, sem_reserve, sem_release, sem_destroy,
  sem_try_reserve,
}

-- The FIFO, how many calls of sem_init() have succeeded, how many processes hold the semaphore, and how
-- many tokens the kernel has dropped with the last descriptor of the FIFO.
pub record System : Type 0 where
  pub fifo : Fifo
  pub inits : ℕ
  pub holders : ℕ
  pub drops : ℕ

abbrev pub unused : System
unused = record { fifo = no_fifo; inits = 0; holders = 0; drops = 0 }

-- A call by some process that comes back without an error. A process releases the semaphore when it
-- holds it; a process that ends closes its descriptor as sem_destroy() does.
pub data Step : System → System → Type 0 where
  inits :
      {s : System} (f : Fifo)
      → sem_init true true s.fifo ≡ (returns 0, f)
      → Step s (record s { fifo = f; inits = s.inits + 1 })
  reserves :
      {s : System} (f : Fifo)
      → sem_reserve true s.fifo ≡ (returns 0, f)
      → Step s (record s { fifo = f; holders = s.holders + 1 })
  tries :
      {s : System} (f : Fifo)
      → sem_try_reserve true s.fifo ≡ (returns 0, f)
      → Step s (record s { fifo = f; holders = s.holders + 1 })
  finds_none :
      {s : System} (f : Fifo)
      → sem_try_reserve true s.fifo ≡ (returns 1, f)
      → Step s (record s { fifo = f })
  releases :
      {s : System} (f : Fifo) (n : ℕ)
      → s.holders ≡ suc n
      → sem_release true s.fifo ≡ (returns 0, f)
      → Step s (record s { fifo = f; holders = n })
  destroys :
      {s : System}
      → 0 < s.fifo.open_fds
      → Step s (record s {
        fifo = (sem_destroy true s.fifo).1;
        drops = s.drops + (s.fifo.tokens - (sem_destroy true s.fifo).1.tokens);
      })

pub data Reachable : System → Type 0 where
  start : Reachable unused
  then_step : {s t : System} → Reachable s → Step s t → Reachable t

reserve-takes : (f g : Fifo) → sem_reserve true f ≡ (returns 0, g) → g.tokens + 1 ≡ f.tokens
unfolding sem_reserve
reserve-takes f g e = ground (arith, e)

try-takes : (f g : Fifo) → sem_try_reserve true f ≡ (returns 0, g) → g.tokens + 1 ≡ f.tokens
unfolding sem_try_reserve
try-takes f g e = ground (arith, e)

try-keeps : (f g : Fifo) → sem_try_reserve true f ≡ (returns 1, g) → g.tokens ≡ f.tokens
unfolding sem_try_reserve
try-keeps f g e = ground (arith, e)

release-gives : (f g : Fifo) → sem_release true f ≡ (returns 0, g) → g.tokens ≡ f.tokens + 1
unfolding sem_release
release-gives f g e = ground (arith, e)

init-gives :
    (f g : Fifo)
    → sem_init true true f ≡ (returns 0, g)
    → f.tokens < pipe_capacity
    → g.tokens ≡ f.tokens + 1
unfolding sem_init
init-gives f g e room = ground (arith, e, room)

destroy-keeps : (f : Fifo) → (sem_destroy true f).1.tokens ≤ f.tokens
unfolding sem_destroy
destroy-keeps f = ground arith

tokens_stay :
    {s t : System}
    → Step s t
    → (s.inits ≤ pipe_capacity → s.fifo.tokens + s.holders + s.drops ≡ s.inits)
    → t.inits ≤ pipe_capacity
    → t.fifo.tokens + t.holders + t.drops ≡ t.inits
tokens_stay {s = s} (inits f e) before fits =
    let sum = before (omega (arith, fits)) in
    omega (arith, sum, init-gives s.fifo f e (omega (arith, sum, fits)))
tokens_stay {s = s} (reserves f e) before fits =
    omega (arith, before fits, reserve-takes s.fifo f e)
tokens_stay {s = s} (tries f e) before fits = omega (arith, before fits, try-takes s.fifo f e)
tokens_stay {s = s} (finds_none f e) before fits = omega (arith, before fits, try-keeps s.fifo f e)
tokens_stay {s = s} (releases f n h e) before fits =
    omega (arith, before fits, h, release-gives s.fifo f e)
tokens_stay {s = s} (destroys h) before fits = omega (arith, before fits, destroy-keeps s.fifo)

-- Whatever the processes do: the tokens in the FIFO, the processes that hold the semaphore and the
-- tokens that were dropped are together as many as the calls of sem_init() that have succeeded, when these are not more than the
-- FIFO has room for.
pub tokens_conserved :
    (s : System)
    → Reachable s
    → s.inits ≤ pipe_capacity
    → s.fifo.tokens + s.holders + s.drops ≡ s.inits
tokens_conserved s start fits = refl
tokens_conserved s (then_step {s = r} reached step) fits =
    tokens_stay step (tokens_conserved r reached) fits

-- The FIFO after `n` calls of sem_init(), with `k` tokens in it.
abbrev pub fifo_with : ℕ → ℕ → Fifo
fifo_with n k = record { exists = true; tokens = k; open_fds = n }

abbrev pub shared : ℕ → ℕ → ℕ → System
shared n k h = record { fifo = fifo_with n k; inits = n; holders = h; drops = 0 }

init_first : sem_init true true no_fifo ≡ (returns 0, fifo_with 1 1)
unfolding sem_init
init_first = refl

init_again :
    (n : ℕ)
    → n < pipe_capacity
    → sem_init true true (fifo_with n n) ≡ (returns 0, fifo_with (n + 1) (n + 1))
unfolding sem_init
init_again n room = let e : ltb n pipe_capacity ≡ true = ground (arith, room) in rw e refl

reserve_one : (n k : ℕ) → sem_reserve true (fifo_with n (k + 1)) ≡ (returns 0, fifo_with n k)
unfolding sem_reserve
reserve_one n k =
    let e : (k + 1 == 0) ≡ false = ground arith in
    let back : k + 1 - 1 ≡ k = omega arith in rw (e, back) refl

all_init : (n : ℕ) → n < pipe_capacity → Reachable (shared (n + 1) (n + 1) 0)
all_init zero fits = then_step start (inits (fifo_with 1 1) init_first)
all_init (suc n) fits =
    let next : n + 1 ≡ suc n = omega arith in
    subst (λ m. Reachable (shared (m + 1) (m + 1) 0)) next
      (then_step (all_init n (omega (arith, fits)))
        (inits (fifo_with (n + 1 + 1) (n + 1 + 1)) (init_again (n + 1) (omega (arith, fits)))))

all_reserve : (n k h : ℕ) → Reachable (shared n (k + h) 0) → Reachable (shared n k h)
all_reserve n k zero reached = subst (λ m. Reachable (shared n m 0)) (omega arith) reached
all_reserve n k (suc h) reached =
    let before : Reachable (shared n (k + 1) h) =
      all_reserve n (k + 1) h (subst (λ m. Reachable (shared n m 0)) (omega arith) reached) in
    let next : h + 1 ≡ suc h = omega arith in
    subst (λ m. Reachable (shared n k m)) next
      (then_step before (reserves (fifo_with n k) (reserve_one n k)))

-- Every call of sem_init() adds a token: as many processes as have called it can hold the semaphore at
-- the same time.
pub all_hold : (n : ℕ) → 0 < n → n ≤ pipe_capacity → Reachable (shared n 0 n)
all_hold zero some_call fits = absurd (omega (arith, some_call))
all_hold (suc n) some_call fits =
    let next : n + 1 ≡ 0 + suc n = omega arith in
    let size : n + 1 ≡ suc n = omega arith in
    all_reserve (suc n) 0 (suc n) (
      subst (λ m. Reachable (shared (suc n) m 0)) next
        (subst (λ m. Reachable (shared m (n + 1) 0)) size (all_init n (omega (arith, fits)))))
