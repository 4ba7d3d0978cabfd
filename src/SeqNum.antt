-- ===== src/SeqNum.antt =====
-- chapter_44/fifo_seqnum_server_mod3.c, fifo_seqnum.h: the server of sequence numbers, which keeps its
-- counter in a file. An int is a number below 2 ^ 32, in two's complement; a sum that overflows wraps
-- around.
pub mod Persist
pub mod Counter
pub mod Sessions
pub mod Limits
mod Examples
use tlpi_solutions.Common.{
  ℕ, zero, suc, ◌+◌, ◌-◌, ◌*◌, ◌%◌, Bool, true, false, Option, none, some, List, [], ◌∷◌, ◌++◌,
  ◌==◌, ltb, ◌&&◌, not, if◌then◌else◌, length, take, scan, is_digit, print_number, skip_spaces, map,
}

abbrev pub word : ℕ
word = 4294967296

abbrev pub half_word : ℕ
half_word = 2147483648

abbrev pub max_retries : ℕ
max_retries = 3

abbrev pub newline : ℕ
newline = 10

pub record Request : Type 0 where
  pub pid : ℕ
  pub seq_len : ℕ

-- The numbers that a client is given: `seq_num` of the response and the length that it asked for.
pub record Range : Type 0 where
  pub seq_num : ℕ
  pub seq_len : ℕ

-- "%d" of fscanf(), behind the spaces and the sign
unfoldable pub scan_digits : List ℕ → Option ℕ
scan_digits [] = none
scan_digits (c ∷ cs) = if is_digit c then some (scan (c ∷ cs) 0 % word) else none

abbrev pub negate : Option ℕ → Option ℕ
negate none = none
negate (some n) = some ((word - n) % word)

unfoldable pub scan_signed : List ℕ → Option ℕ
unfolding scan_digits
scan_signed [] = none
scan_signed (c ∷ cs) =
    if c == b'-'
    then negate (scan_digits cs)
    else if c == b'+'
    then scan_digits cs
    else scan_digits (c ∷ cs)

-- "%d\n" of snprintf()
unfoldable pub print_int : ℕ → List ℕ
print_int n =
    if ltb n half_word
    then print_number n (newline ∷ [])
    else b'-' ∷ print_number (word - n) (newline ∷ [])

abbrev pub or_zero : Option ℕ → ℕ
or_zero none = 0
or_zero (some n) = n

-- read_seq() of what fopen() finds
unfoldable pub read_seq : Option (List ℕ) → ℕ
unfolding scan_signed
read_seq none = 0
read_seq (some text) = or_zero (scan_signed (skip_spaces text))

-- The server: its counter, the file, how many of its descriptors are open, and whether it runs.
pub record Server : Type 0 where
  pub seq_num : ℕ
  pub seqfile : List ℕ
  pub open_fds : ℕ
  pub running : Bool

-- How far save_seq() gets. `nothing`: open() fails, or the process is killed before it; `part k`: k
-- bytes are written to the emptied file when write() ends short or the process is killed.
pub data Saving : Type 0 where
  whole nothing : Saving
  part : ℕ → Saving

-- save_seq() of a process that can have `limit` descriptors: the one that it opens stays open.
unfoldable pub save_seq : (limit : ℕ) → Saving → ℕ → Server → Server
unfolding print_int
save_seq limit how n s =
    if not (ltb s.open_fds limit) then record s { running = false } else elim how [
      | whole ↦ record s { seqfile = print_int n; open_fds = s.open_fds + 1 }
      | nothing ↦ record s { running = false }
      | part k ↦ record s { seqfile = take k (print_int n); running = false }
    ]

-- What open() of the client's FIFO gives; `no_reader` is ENXIO.
pub data Opened : Type 0 where
  opened no_reader refused : Opened

-- The loop over the attempts, `left` of which are left after this one.
unfoldable pub open_client : (left attempt : ℕ) → (ℕ → Opened) → Bool
open_client zero attempt opens = elim (opens attempt) [
  | opened ↦ true
  | no_reader ↦ false
  | refused ↦ false
]
open_client (suc left) attempt opens =
    let again = open_client left (attempt + 1) opens in
    elim (opens attempt) [ opened ↦ true | no_reader ↦ again | refused ↦ false ]

-- What read() of the server's FIFO gives: less than a request, or a request, with what happens while
-- it is served.
pub data Event : Type 0 where
  discarded : Event
  request : Request → (ℕ → Opened) → Saving → Event

-- A round of the loop of main(). A response that cannot be written is used up.
unfoldable pub serve : (limit : ℕ) → Event → Server → Server × List Range
unfolding open_client save_seq
serve limit discarded s = (s, [])
serve limit (request req opens how) s =
    let seq_num = (s.seq_num + req.seq_len) % word in
    if not (ltb s.open_fds limit && open_client max_retries 0 opens) then (s, []) else (
      save_seq limit how seq_num (record s { seq_num = seq_num }),
      (record { seq_num = s.seq_num; seq_len = req.seq_len }) ∷ [],
    )

abbrev pub then_ranges : Server × List Range → (Server → Server × List Range) → Server × List Range
then_ranges (s, ranges) next = let (s', ranges') = next s in (s', ranges ++ ranges')

-- The loop of main(), as long as the process runs.
unfoldable pub run : (limit : ℕ) → List Event → Server → Server × List Range
unfolding serve
run limit [] s = (s, [])
run limit (e ∷ es) s =
    let more = then_ranges (serve limit e s) (run limit es) in if s.running then more else (s, [])

-- open() with O_CREAT
abbrev pub created : Option (List ℕ) → List ℕ
created none = []
created (some text) = text

-- The start of main(): the standard descriptors, `fd`, and the two ends of the FIFO are open.
unfoldable pub boot : Option (List ℕ) → Server
unfolding read_seq
boot seqfile = record {
  seq_num = read_seq (some (created seqfile));
  seqfile = created seqfile;
  open_fds = 6;
  running = true;
}

-- Servers that are started one after another: the ranges that their clients are given.
unfoldable pub sessions : (limit : ℕ) → List (List Event) → Option (List ℕ) → List Range
unfolding boot run
sessions limit [] seqfile = []
sessions limit (es ∷ ess) seqfile =
    let (s, ranges) = run limit es (boot seqfile) in ranges ++ sessions limit ess (some s.seqfile)
