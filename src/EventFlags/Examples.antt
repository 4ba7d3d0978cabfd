-- ===== src/EventFlags/Examples.antt =====
-- The theorems about chapter_47/vms_flags.c at a flag that was cleared twice.
use tlpi_solutions.Common.{◌≡◌, refl, some, [], ◌∷◌, arith}
use tlpi_solutions.EventFlags.{
  set_event_flag, clear_event_flag, get_flag_state, signal, call, returned, wait_for_event_flag,
}
use tlpi_solutions.EventFlags.Counts.{times, clears_count}

clears_count_example :
    (get_flag_state (times set_event_flag 1 (times clear_event_flag 2 0))).0 ≡ some 0
clears_count_example = clears_count 2 1 (omega arith)

-- A signal and two sets.
woken :
    wait_for_event_flag (call set_event_flag ∷ signal ∷ call set_event_flag ∷ []) 2
    ≡ returned 0 1 []
unfolding wait_for_event_flag set_event_flag
woken = refl
