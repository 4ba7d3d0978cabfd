-- ===== src/EventFlags/Counts.antt =====
-- What sets and clears of a flag of chapter_47/vms_flags.c do.
use tlpi_solutions.Common.{
  ℕ, zero, suc, ◌+◌, ◌-◌, ◌≤◌, ◌≡◌, refl, ap, ◌∙◌, true, some, List, [], ◌∷◌, ◌==◌, leb,
  if◌then◌else◌, arith, Bool-cases, inl, inr,
}
use tlpi_solutions.EventFlags.{
  max_value, Returned, set_event_flag, clear_event_flag, get_flag_state, Wake, signal, call, Waited,
  returned, blocked, wait_for_event_flag,
}

-- A call, again and again.
abbrev pub times : (ℕ → Returned) → ℕ → ℕ → ℕ
times f zero value = value
times f (suc n) value = times f n (f value).1

clears_add : (n value : ℕ) → value + n ≤ max_value → times clear_event_flag n value ≡ value + n
clears_add zero value fits = omega arith
clears_add (suc n) value fits =
    let one : (clear_event_flag value).1 ≡ value + 1 =
      unfold clear_event_flag in ground (arith, fits) in
    ap (times clear_event_flag n) one ∙ clears_add n (value + 1) (omega (arith, fits)) ∙ omega arith

sets_subtract : (n value : ℕ) → times set_event_flag n value ≡ value - n
sets_subtract zero value = omega arith
sets_subtract (suc n) value =
    let one : (set_event_flag value).1 ≡ value - 1 = unfold set_event_flag in ground arith in
    ap (times set_event_flag n) one ∙ sets_subtract n (value - 1) ∙ omega arith

-- A flag that is set is cleared `n` times, and then set `k` times: it is set if and only if it was set
-- as many times as it was cleared. With one clear, one set is enough; with two it is not.
pub clears_count :
    (n k : ℕ)
    → n ≤ max_value
    → (get_flag_state (times set_event_flag k (times clear_event_flag n 0))).0
      ≡ some (if leb n k then 1 else 0)
unfolding get_flag_state
clears_count n k fits =
    let value : times set_event_flag k (times clear_event_flag n 0) ≡ n - k =
      sets_subtract k (times clear_event_flag n 0)
      ∙ ap (λ v. v - k) (clears_add n 0 (omega (arith, fits)) ∙ omega arith) in
    rw value (ground arith)

-- How many of the events are calls of setEventFlag().
pub data SetsAndSignals : ℕ → List Wake → Type 0 where
  no_more : SetsAndSignals 0 []
  a_signal :
      {n : ℕ} {wakes : List Wake} → SetsAndSignals n wakes → SetsAndSignals n (signal ∷ wakes)
  a_set :
      {n : ℕ} {wakes : List Wake}
      → SetsAndSignals n wakes
      → SetsAndSignals (suc n) (call set_event_flag ∷ wakes)

-- The call has returned 0, and the flag is clear.
abbrev pub Wakes : Waited → Type 0
Wakes (returned n value wakes) = (n ≡ 0) × (value ≡ 1)
Wakes (blocked value) = ⊥

-- waitForEventFlag() of a flag that was cleared `value` times, while other processes set it as many
-- times at least and signals arrive: it returns 0 and leaves the flag clear.
pub wait_for_event_flag-Wakes :
    (n value : ℕ) (wakes : List Wake)
    → SetsAndSignals n wakes
    → value ≤ n
    → Wakes (wait_for_event_flag wakes value)
unfolding wait_for_event_flag
wait_for_event_flag-Wakes n value [] no_more enough =
    let e : (value == 0) ≡ true = ground (arith, enough) in rw e (refl, refl)
wait_for_event_flag-Wakes n value (signal ∷ wakes) (a_signal w) enough =
    elim (Bool-cases (value == 0)) [
      | inl e ↦ rw e (refl, refl)
      | inr e ↦ rw e (wait_for_event_flag-Wakes n value wakes w enough)
    ]
wait_for_event_flag-Wakes (suc n) value (call f ∷ wakes) (a_set w) enough =
    elim (Bool-cases (value == 0)) [
      | inl e ↦ rw e (refl, refl)
      | inr e ↦
          let one : (set_event_flag value).1 ≡ value - 1 = unfold set_event_flag in ground arith in
          rw (e, one) (wait_for_event_flag-Wakes n (value - 1) wakes w (omega (arith, enough)))
    ]
wait_for_event_flag-Wakes zero value (call f ∷ wakes) none_left enough = elim none_left [ ]
