-- ===== src/NpipeSem.antt =====
-- chapter_47/npipe_sem.c, npipe_sem.h: a semaphore in a FIFO, whose bytes are its tokens. The FIFO
-- keeps its bytes as long as it is open somewhere, and holds at most 65536 of them. What the kernel
-- refuses for other reasons is an argument.
pub mod Holders
mod Examples
use tlpi_solutions.Common.{
  ℕ, zero, suc, ◌+◌, ◌-◌, ◌≡◌, Bool, true, false, Option, none, some, ◌==◌, ltb, if◌then◌else◌, not,
  ◌&&◌, ◌||◌,
}

abbrev pub pipe_capacity : ℕ
pipe_capacity = 65536

-- The FIFO: whether it exists, the bytes in it, and how many of its descriptors are open in all the
-- processes.
pub record Fifo : Type 0 where
  pub exists : Bool
  pub tokens : ℕ
  pub open_fds : ℕ

abbrev pub no_fifo : Fifo
no_fifo = record { exists = false; tokens = 0; open_fds = 0 }

-- What a function returns, and its effect. A process that ends by exit() is `ends`.
pub data Result : Type 0 where
  returns : ℕ → Result
  fails ends blocks : Result

-- write() of a token.
abbrev pub with_token : Fifo → Fifo
with_token f = record f { tokens = f.tokens + 1 }

-- The descriptor is closed: without one, the FIFO is empty.
abbrev pub closed : Fifo → Fifo
closed f = record f { open_fds = f.open_fds - 1; tokens = if f.open_fds == 1 then 0 else f.tokens }

-- sem_init(): the write does not block, and a full FIFO is fine.
unfoldable pub sem_init : (makes opens : Bool) → Fifo → Result × Fifo
sem_init makes opens f =
    let made = record f { exists = true } in
    let opened = record f { exists = true; open_fds = f.open_fds + 1 } in
    if not makes
    then (fails, f)
    else if not opens
    then (fails, made)
    else if ltb f.tokens pipe_capacity
    then (returns 0, with_token opened)
    else (returns 0, opened)

-- sem_reserve() with a descriptor of the FIFO that is open elsewhere; without one it blocks in open().
unfoldable pub sem_reserve : (opens : Bool) → Fifo → Result × Fifo
sem_reserve opens f =
    if not (opens && f.exists)
    then (ends, f)
    else if f.tokens == 0
    then (blocks, f)
    else (returns 0, record f { tokens = f.tokens - 1 })

unfoldable pub sem_release : (opens : Bool) → Fifo → Result × Fifo
sem_release opens f =
    if not (opens && f.exists)
    then (ends, f)
    else if not (ltb f.tokens pipe_capacity) || f.open_fds == 0
    then (blocks, f)
    else (returns 0, with_token f)

unfoldable pub sem_try_reserve : (opens : Bool) → Fifo → Result × Fifo
sem_try_reserve opens f =
    if not (opens && f.exists)
    then (fails, f)
    else if f.tokens == 0
    then (returns 1, f)
    else (returns 0, record f { tokens = f.tokens - 1 })

-- sem_destroy() of a handle whose descriptor is open, or -1, which it is afterwards.
unfoldable pub sem_destroy : (is_open : Bool) → Fifo → Bool × Fifo
sem_destroy is_open f = (false, if is_open then closed f else f)
