-- ===== src/Pftp/Transfer.antt =====
-- What chapter_61/pftp_server.c sends of a file.
use tlpi_solutions.Common.{
  ℕ, zero, suc, ◌*◌, ◌≤◌, ◌≡◌, refl, sym, ap, ◌∙◌, true, false, Option, none, some, List, [], ◌∷◌,
  ◌++◌, ◌==◌, if◌then◌else◌, arith, length, take, drop, replicate, length-drop, take-append-drop,
  Bool-cases, inl, inr,
}
use mathlib.Core.List.{append_assoc}
use tlpi_solutions.Pftp.{buffer_size, validate_filename}
use tlpi_solutions.Pftp.Server.{
  File, Server, Effect, closes, connects, sends, fopens, fcloses, Env, filepath, size_line,
  handle_transfer_command, continue_file_transfer, idle_round, Round, idle, round, run, then_do,
}

-- The bytes that are sent on a descriptor.
abbrev pub sent : ℕ → List Effect → List ℕ
sent fd [] = []
sent fd (closes d ∷ effects) = sent fd effects
sent fd (connects port ∷ effects) = sent fd effects
sent fd (sends d bytes ∷ effects) = if d == fd then bytes ++ sent fd effects else sent fd effects
sent fd (fopens path ∷ effects) = sent fd effects
sent fd (fcloses path ∷ effects) = sent fd effects

sent-append : (fd : ℕ) (xs ys : List Effect) → sent fd (xs ++ ys) ≡ sent fd xs ++ sent fd ys
sent-append fd [] ys = refl
sent-append fd (closes d ∷ xs) ys = sent-append fd xs ys
sent-append fd (connects port ∷ xs) ys = sent-append fd xs ys
sent-append fd (sends d bytes ∷ xs) ys = elim (Bool-cases (d == fd)) [
  | inl e ↦ rw e (
      ap (λ l. bytes ++ l) (sent-append fd xs ys)
      ∙ sym (append_assoc bytes (sent fd xs) (sent fd ys)))
  | inr e ↦ rw e (sent-append fd xs ys)
]
sent-append fd (fopens path ∷ xs) ys = sent-append fd xs ys
sent-append fd (fcloses path ∷ xs) ys = sent-append fd xs ys

-- The server with a client on `fd`, while a file is transferred or not.
abbrev pub serving : ℕ → Option ℕ → List ℕ → Option File → Server
serving fd priority cookie transfer = record {
  normal_fd = some fd;
  priority_fd = priority;
  cookie = cookie;
  transfer_file = transfer;
}

abbrev pub open_file : List ℕ → List ℕ → Option File
open_file path rest = some (record { path = path; rest = rest })

module _ (fd : ℕ) (priority : Option ℕ) (cookie : List ℕ) where
  nothing_sent :
      (k : ℕ)
      → run (replicate k idle) (serving fd priority cookie none)
        ≡ (serving fd priority cookie none, [])
  unfolding run round idle_round
  nothing_sent zero = refl
  nothing_sent (suc k) = rw (nothing_sent k) refl

  last_round :
      (k : ℕ) (path : List ℕ)
      → run (replicate (suc k) idle) (serving fd priority cookie (open_file path []))
        ≡ (serving fd priority cookie none, fcloses path ∷ [])
  unfolding run round idle_round continue_file_transfer
  last_round k path = rw (nothing_sent k) refl

  one_round :
      (rs : List Round) (path rest : List ℕ)
      → (length rest == 0) ≡ false
      → run (idle ∷ rs) (serving fd priority cookie (open_file path rest))
        ≡ then_do
            (
              serving fd priority cookie (open_file path (drop buffer_size rest)),
              sends fd (take buffer_size rest) ∷ [],
            )
            (run rs)
  unfolding run round idle_round continue_file_transfer
  one_round rs path rest e = rw e refl

  -- The rounds send the rest of the file, and close it.
  pub rounds_send :
      (k : ℕ) (path rest : List ℕ)
      → length rest ≤ buffer_size * k
      → let (s', effects) =
          run (replicate (suc k) idle) (serving fd priority cookie (open_file path rest)) in
        (sent fd effects ≡ rest) × (s' ≡ serving fd priority cookie none)
  rounds_send k path [] fits = rw (last_round k path) (refl, refl)
  rounds_send zero path (c ∷ cs) fits = absurd (omega (arith, fits))
  rounds_send (suc k) path (c ∷ cs) fits =
      let rest : List ℕ = c ∷ cs in
      let left : length (drop buffer_size rest) ≤ buffer_size * k =
        omega (arith, length-drop buffer_size rest, fits) in
      let (tail, end) = rounds_send k path (drop buffer_size rest) left in
      let some_left : (length rest == 0) ≡ false = ground arith in
      let self : (fd == fd) ≡ true = ground arith in
      rw (one_round (replicate (suc k) idle) path rest some_left, self)
        (ap (λ l. take buffer_size rest ++ l) tail ∙ take-append-drop buffer_size rest, end)

-- What is accepted: a name that validate_filename() accepts, of a file that is there.
pub transfer_starts :
    (env : Env) (fd : ℕ) (priority : Option ℕ) (cookie name content : List ℕ)
    → validate_filename name ≡ true
    → env.content (filepath name) ≡ some content
    → env.stats ≡ true
    → handle_transfer_command env fd name (serving fd priority cookie none) ≡ (
      serving fd priority cookie (open_file (filepath name) content),
      fopens (filepath name) ∷ sends fd (size_line (length content)) ∷ [],
    )
unfolding handle_transfer_command
transfer_starts env fd priority cookie name content valid there stats =
    rw (valid, handle_transfer_command, there, stats) refl

-- A client asks for a file of the directory by a valid name, and nothing else happens: after enough
-- rounds, which is one more than one for every 8192 bytes that have begun, the server has sent the
-- line with the size and then the bytes of the file, all of them and in order, and waits for the
-- next command.
pub transfer_complete :
    (env : Env) (fd k : ℕ) (priority : Option ℕ) (cookie name content : List ℕ)
    → validate_filename name ≡ true
    → env.content (filepath name) ≡ some content
    → env.stats ≡ true
    → length content ≤ buffer_size * k
    → let (s', effects) =
        then_do
          (handle_transfer_command env fd name (serving fd priority cookie none))
          (run (replicate (suc k) idle)) in
      (sent fd effects ≡ size_line (length content) ++ content)
      × (s' ≡ serving fd priority cookie none)
transfer_complete env fd k priority cookie name content valid there stats fits =
    let (tail, end) = rounds_send fd priority cookie k (filepath name) content fits in
    let self : (fd == fd) ≡ true = ground arith in
    rw (transfer_starts env fd priority cookie name content valid there stats, self)
      (ap (λ l. size_line (length content) ++ l) tail, end)
