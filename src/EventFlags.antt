-- ===== src/EventFlags.antt =====
-- chapter_47/vms_flags.c, vms_flags.h: event flags. A flag is the value of a semaphore that is there and
-- may be used: 0 is a flag that is set, and 32767 is the largest value.
pub mod Counts
mod Examples
use tlpi_solutions.Common.{
  ℕ, ◌+◌, ◌-◌, Bool, Option, none, some, List, [], ◌∷◌, ◌==◌, if◌then◌else◌,
}

abbrev pub max_value : ℕ
max_value = 32767

-- `none` is -1.
abbrev pub Returned : Type 0
Returned = Option ℕ × ℕ

-- setEventFlag(): the EAGAIN of a flag that is set is no error.
unfoldable pub set_event_flag : ℕ → Returned
set_event_flag value = if value == 0 then (some 0, value) else (some 0, value - 1)

unfoldable pub clear_event_flag : ℕ → Returned
clear_event_flag value = if value == max_value then (none, value) else (some 0, value + 1)

unfoldable pub get_flag_state : ℕ → Returned
get_flag_state value = if value == 0 then (some 1, value) else (some 0, value)

-- What happens while a process is blocked: a signal, or a call of another process.
pub data Wake : Type 0 where
  signal : Wake
  call : (ℕ → Returned) → Wake

-- The end of waitForEventFlag(): what it returns, the value then, and what happens later; or it is
-- blocked when nothing more happens.
pub data Waited : Type 0 where
  returned : ℕ → ℕ → List Wake → Waited
  blocked : ℕ → Waited

-- waitForEventFlag(): semop() again after each signal.
unfoldable pub wait_for_event_flag : List Wake → ℕ → Waited
wait_for_event_flag [] value = if value == 0 then returned 0 1 [] else blocked value
wait_for_event_flag (signal ∷ wakes) value =
    let again = wait_for_event_flag wakes value in
    if value == 0 then returned 0 1 (signal ∷ wakes) else again
wait_for_event_flag (call f ∷ wakes) value =
    let later = wait_for_event_flag wakes (f value).1 in
    if value == 0 then returned 0 1 (call f ∷ wakes) else later
