-- ===== src/SeqNum/Sessions.antt =====
-- The servers of chapter_44/fifo_seqnum_server_mod3.c that run one after another.
use tlpi_solutions.Common.{
  ℕ, ◌+◌, ◌%◌, ◌≤◌, ◌<◌, ◌≡◌, refl, sym, ap, subst, true, false, Option, some, List, [], ◌∷◌, ltb,
  if◌then◌else◌, arith, Bool-cases, inl, inr,
}
use tlpi_solutions.SeqNum.{
  word, half_word, max_retries, Range, read_seq, Server, whole, save_seq, open_client, Event,
  discarded, request, serve, then_ranges, run, created, boot, sessions,
}
use tlpi_solutions.SeqNum.Persist.{read_seq-print_int, read_seq-bounded}
use tlpi_solutions.SeqNum.Counter.{Follows, Follows-append, total, owners, owners_unique}

-- Every call of save_seq() gets to its end.
abbrev pub SavesWhole : Event → Type 0
SavesWhole discarded = Unit {0}
SavesWhole (request req opens how) = how ≡ whole

abbrev pub SaveWhole : List Event → Type 0
SaveWhole [] = Unit {0}
SaveWhole (e ∷ es) = SavesWhole e × SaveWhole es

abbrev pub AllSaveWhole : List (List Event) → Type 0
AllSaveWhole [] = Unit {0}
AllSaveWhole (es ∷ ess) = SaveWhole es × AllSaveWhole ess

-- The file has the counter.
abbrev pub IsSaved : Server → Type 0
IsSaved s = (read_seq (some s.seqfile) ≡ s.seq_num) × (s.seq_num < word)

serve-Follows :
    (limit : ℕ) (e : Event) (s : Server)
    → SavesWhole e
    → IsSaved s
    → Follows s.seq_num (serve limit e s).1 (serve limit e s).0.seq_num
      × IsSaved (serve limit e s).0
unfolding serve save_seq
serve-Follows limit discarded s w saved = (refl, saved)
serve-Follows limit (request req opens how) s w saved =
    let next : ℕ = (s.seq_num + req.seq_len) % word in
    let small : next < word = omega arith in
    elim (Bool-cases (ltb s.open_fds limit)) [
      | inl room ↦ elim (Bool-cases (open_client max_retries 0 opens)) [
        | inl opens_it ↦
            rw (room, opens_it, w) ((refl, refl), (read_seq-print_int next small, small))
        | inr fails ↦ rw (room, fails) (refl, saved)
      ]
      | inr full ↦ rw full (refl, saved)
    ]

pub run_on :
    (limit : ℕ) (e : Event) (es : List Event) (s : Server)
    → s.running ≡ true
    → run limit (e ∷ es) s ≡ then_ranges (serve limit e s) (run limit es)
unfolding run
run_on limit e es s on =
    ap (λ b. if b then then_ranges (serve limit e s) (run limit es) else (s, [])) on

pub run_off :
    (limit : ℕ) (es : List Event) (s : Server) → s.running ≡ false → run limit es s ≡ (s, [])
unfolding run
run_off limit [] s off = refl
run_off limit (e ∷ es) s off =
    ap (λ b. if b then then_ranges (serve limit e s) (run limit es) else (s, [])) off

-- The ranges that are given from a state on, and the state after them.
abbrev Gives : Server → Server × List Range → Type 0
Gives s (s', ranges) = Follows s.seq_num ranges s'.seq_num × IsSaved s'

run-Follows :
    (limit : ℕ) (es : List Event) (s : Server) → SaveWhole es → IsSaved s → Gives s (run limit es s)
run-Follows limit [] s w saved = unfold run in (refl, saved)
run-Follows limit (e ∷ es) s w saved =
    let first = serve-Follows limit e s w.0 saved in
    let s1 = (serve limit e s).0 in
    let more = run-Follows limit es s1 w.1 first.1 in
    elim (Bool-cases s.running) [
      | inl on ↦ subst (Gives s) (sym (run_on limit e es s on)) (
        Follows-append s.seq_num s1.seq_num (run limit es s1).0.seq_num (serve limit e s).1
            (run limit es s1).1 first.0 more.0,
        more.1,
      )
      | inr off ↦ subst (Gives s) (sym (run_off limit (e ∷ es) s off)) (refl, saved)
    ]

boot-IsSaved : (seqfile : Option (List ℕ)) → IsSaved (boot seqfile)
unfolding boot
boot-IsSaved seqfile = (refl, read_seq-bounded (some (created seqfile)))

-- Whatever the clients ask for, and however often the server is stopped and started between two
-- requests: the ranges follow each other, from the number that the file has at first.
pub sessions-Follows :
    (limit : ℕ) (ess : List (List Event)) (seqfile : Option (List ℕ))
    → AllSaveWhole ess
    → (end : ℕ) × Follows (read_seq (some (created seqfile))) (sessions limit ess seqfile) end
unfolding sessions
sessions-Follows limit [] seqfile w = (read_seq (some (created seqfile)), refl)
sessions-Follows limit (es ∷ ess) seqfile w =
    let s1 = boot seqfile in
    let s2 = (run limit es s1).0 in
    let first = run-Follows limit es s1 w.0 (boot-IsSaved seqfile) in
    let (end, rest) = sessions-Follows limit ess (some s2.seqfile) w.1 in
    (
      end,
      Follows-append (read_seq (some (created seqfile))) s2.seq_num end (run limit es s1).1
          (sessions limit ess (some s2.seqfile)) (unfold boot in first.0)
          (subst (λ a. Follows a (sessions limit ess (some s2.seqfile)) end) first.1.0 rest),
    )

-- The number that the file has at first is not negative, the clients ask for lengths that are not
-- negative, and the counter, which ends at the first number and the sum of the lengths, does not
-- overflow an int: however often the server is stopped and started between two requests, every time
-- after save_seq() has come to its end, no number is given to two clients.
pub numbers_unique :
    (limit x : ℕ) (ess : List (List Event)) (seqfile : Option (List ℕ))
    → AllSaveWhole ess
    → read_seq (some (created seqfile)) + total (sessions limit ess seqfile) < half_word
    → owners x (sessions limit ess seqfile) ≤ 1
numbers_unique limit x ess seqfile w fits =
    let (end, follows) = sessions-Follows limit ess seqfile w in
    owners_unique x (read_seq (some (created seqfile))) end (sessions limit ess seqfile) follows
      fits
