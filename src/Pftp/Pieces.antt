-- ===== src/Pftp/Pieces.antt =====
-- The pieces in which the client of chapter_61/pftp_client.c receives a file.
use tlpi_solutions.Common.{
  ℕ, ◌+◌, ◌<◌, ◌≡◌, refl, sym, ap, ◌∙◌, true, false, Option, some, List, [], ◌∷◌, ◌++◌, map, leb,
  arith, length, length-append,
}
use mathlib.Core.List.{append_assoc, append-nil}
use tlpi_solutions.Pftp.Client.{
  Client, goes_on, store_data, handle_server_data, waiting, completed, check_completed, client_loop,
}

-- The bytes of a list of messages.
abbrev pub joined : List (List ℕ) → List ℕ
joined [] = []
joined (p ∷ ps) = p ++ joined ps

-- A recv() that gives bytes gives one at least.
abbrev pub IsCut : List (List ℕ) → Type 0
IsCut [] = Unit {0}
IsCut (p ∷ ps) = (0 < length p) × IsCut ps

-- The client while a file of `n` bytes arrives, `r` of which have, and when it is complete.
abbrev pub receiving : ℕ → ℕ → ℕ → List ℕ → Client
receiving n r o w = record {
  output_file = true;
  written = w;
  file_size = n;
  bytes_received = r;
  outside = o;
}

abbrev pub received : ℕ → ℕ → ℕ → List ℕ → Client
received n r o w = record {
  output_file = false;
  written = w;
  file_size = n;
  bytes_received = r;
  outside = o;
}

last_piece :
    (n r o : ℕ) (w p : List ℕ)
    → r + length p ≡ n
    → store_data p (receiving n r o w) ≡ received n n o (w ++ p)
unfolding store_data
last_piece n r o w p e = let done : leb n n ≡ true = ground arith in rw (e, done) refl

other_piece :
    (n r o : ℕ) (w p : List ℕ)
    → r + length p < n
    → store_data p (receiving n r o w) ≡ receiving n (r + length p) o (w ++ p)
unfolding store_data
other_piece n r o w p h =
    let more : leb n (r + length p) ≡ false = ground (arith, h) in rw more refl

message_stored :
    (n r o : ℕ) (w p : List ℕ) (inputs : List (Option (List ℕ))) (c : Client)
    → store_data p (receiving n r o w) ≡ c
    → client_loop true (some p ∷ inputs) (receiving n r o w)
      ≡ check_completed (goes_on c) (client_loop true inputs)
unfolding client_loop handle_server_data
message_stored n r o w p inputs c e =
    ap (λ c'. check_completed (goes_on c') (client_loop true inputs)) e

-- All bytes of the file: the client completes it.
pub pieces_complete :
    (n r o : ℕ) (w p : List ℕ) (ps : List (List ℕ))
    → IsCut ps
    → r + length (joined (p ∷ ps)) ≡ n
    → client_loop true (map some (p ∷ ps)) (receiving n r o w)
      ≡ completed (received n n o (w ++ joined (p ∷ ps)))
unfolding check_completed
pieces_complete n r o w p [] cut e =
    let all : r + length p ≡ n = omega (arith, e, length-append p []) in
    message_stored n r o w p [] (received n n o (w ++ p)) (last_piece n r o w p all)
    ∙ ap (λ l. completed (received n n o (w ++ l))) (sym (append-nil p))
pieces_complete n r o w p (q ∷ qs) cut e =
    let sum : length (joined (p ∷ q ∷ qs)) ≡ length p + length (joined (q ∷ qs)) =
      length-append p (joined (q ∷ qs)) in
    let some_left : 0 < length (joined (q ∷ qs)) =
      omega (arith, cut.0, length-append q (joined qs)) in
    message_stored n r o w p (map some (q ∷ qs)) (receiving n (r + length p) o (w ++ p))
      (other_piece n r o w p (omega (arith, e, sum, some_left)))
    ∙ pieces_complete n (r + length p) o (w ++ p) q qs cut.1 (omega (arith, e, sum))
    ∙ ap (λ l. completed (received n n o l)) (append_assoc w p (joined (q ∷ qs)))

nothing_more :
    (n r o : ℕ) (w : List ℕ)
    → client_loop true [] (receiving n r o w) ≡ waiting (receiving n (r + 0) o (w ++ []))
unfolding client_loop
nothing_more n r o w = let count : r + 0 ≡ r = omega arith in rw (count, append-nil w) refl

-- Not all of them: it waits for more.
pub pieces_wait :
    (n r o : ℕ) (w : List ℕ) (ps : List (List ℕ))
    → r + length (joined ps) < n
    → client_loop true (map some ps) (receiving n r o w)
      ≡ waiting (receiving n (r + length (joined ps)) o (w ++ joined ps))
unfolding check_completed
pieces_wait n r o w [] h = nothing_more n r o w
pieces_wait n r o w (p ∷ ps) h =
    let sum : length (joined (p ∷ ps)) ≡ length p + length (joined ps) =
      length-append p (joined ps) in
    let count : (r + length p) + length (joined ps) ≡ r + length (joined (p ∷ ps)) =
      omega (arith, sum) in
    message_stored n r o w p (map some ps) (receiving n (r + length p) o (w ++ p))
      (other_piece n r o w p (omega (arith, h, sum)))
    ∙ pieces_wait n (r + length p) o (w ++ p) ps (omega (arith, h, sum))
    ∙ rw (count, append_assoc w p (joined ps)) refl
