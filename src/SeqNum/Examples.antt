-- ===== src/SeqNum/Examples.antt =====
-- The theorems about chapter_44/fifo_seqnum_server_mod3.c at two servers, with three requests.
use tlpi_solutions.Common.{
  ℕ, ◌≤◌, ◌≡◌, refl, Option, none, some, List, [], ◌∷◌, arith, length, print_number, scan,
  skip_spaces, if◌then◌else◌, ◌==◌,
}
use tlpi_solutions.SeqNum.{
  Request, read_seq, scan_signed, print_int, whole, save_seq, Opened, opened, no_reader, Event,
  discarded, request, run, boot, sessions,
}
use tlpi_solutions.SeqNum.Counter.{owners}
use tlpi_solutions.SeqNum.Sessions.{numbers_unique}
use tlpi_solutions.SeqNum.Limits.{answers_bounded}

abbrev ten : Request
ten = record { pid = 100; seq_len = 10 }

-- The client opens its FIFO late.
abbrev late : ℕ → Opened
late k = if k == 0 then no_reader else opened

abbrev saved_ten : Event
saved_ten = request ten late whole

abbrev two_servers : List (List Event)
two_servers = (saved_ten ∷ discarded ∷ saved_ten ∷ []) ∷ (saved_ten ∷ []) ∷ []

abbrev no_file : Option (List ℕ)
no_file = none

three_ranges :
    sessions 20 two_servers no_file
    ≡ (record { seq_num = 0; seq_len = 10 })
      ∷ (record { seq_num = 10; seq_len = 10 })
      ∷ (record { seq_num = 20; seq_len = 10 })
      ∷ []
unfolding sessions save_seq print_number skip_spaces scan
three_ranges = refl

negative : read_seq (some (print_int 4294967295)) ≡ 4294967295
unfolding read_seq print_int print_number skip_spaces scan
negative = refl

numbers_unique_example : owners 15 (sessions 20 two_servers no_file) ≤ 1
numbers_unique_example =
    numbers_unique 20 15 two_servers no_file ((refl, (tt, (refl, tt))), ((refl, tt), tt))
      (rw three_ranges (unfold read_seq scan_signed skip_spaces in omega arith))

answers_bounded_example :
    length (run 8 (saved_ten ∷ saved_ten ∷ saved_ten ∷ []) (boot no_file)).1 ≤ 2
answers_bounded_example = answers_bounded 8 (saved_ten ∷ saved_ten ∷ saved_ten ∷ []) no_file

-- Two of the three requests are answered.
answered : length (run 8 (saved_ten ∷ saved_ten ∷ saved_ten ∷ []) (boot no_file)).1 ≡ 2
unfolding run boot save_seq print_number skip_spaces scan
answered = refl
