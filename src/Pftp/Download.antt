-- ===== src/Pftp/Download.antt =====
-- A download: the server and the client of chapter_61/pftp_server.c and pftp_client.c together.
use tlpi_solutions.Common.{
  ℕ, suc, ◌+◌, ◌*◌, ◌≤◌, ◌<◌, ◌≡◌, sym, ap, ◌∙◌, true, Option, none, some, List, [], ◌∷◌, ◌++◌, map,
  arith, length, length-append, drop, replicate, IsString,
}
use mathlib.Core.List.{append_assoc, append-nil}
use tlpi_solutions.Pftp.{buffer_size, cmd_transfer, newline, validate_filename}
use tlpi_solutions.Pftp.Server.{Env, filepath, size_line, handle_normal_data, idle, run, then_do}
use tlpi_solutions.Pftp.Transfer.{sent, serving, transfer_complete}
use tlpi_solutions.Pftp.Client.{
  connected, handle_server_data, waiting, completed, check_completed, client_loop,
}
use tlpi_solutions.Pftp.Pieces.{joined, IsCut, receiving, received, pieces_complete, pieces_wait}
use tlpi_solutions.Pftp.Receive.{request_taken, behind, line_fits, size_response}

-- What the server sends to a client on `fd` that asks for a file, while `k` and one rounds without
-- other events follow.
abbrev pub answer : Env → (fd k : ℕ) → (priority : Option ℕ) → (cookie name : List ℕ) → List ℕ
answer env fd k priority cookie name =
    let (s, effects) =
      then_do
        (handle_normal_data env fd (some ((cmd_transfer ++ name) ++ newline ∷ []))
          (serving fd priority cookie none))
        (run (replicate (suc k) idle)) in
    sent fd effects

pub answer_lem :
    (env : Env) (fd k : ℕ) (priority : Option ℕ) (cookie name content : List ℕ)
    → IsString name
    → validate_filename name ≡ true
    → env.content (filepath name) ≡ some content
    → env.stats ≡ true
    → length content ≤ buffer_size * k
    → answer env fd k priority cookie name ≡ size_line (length content) ++ content
answer_lem env fd k priority cookie name content string valid there stats fits =
    rw (request_taken env fd name (serving fd priority cookie none) string)
      (transfer_complete env fd k priority cookie name content valid there stats fits).0

append_cancel : (xs ys zs : List ℕ) → xs ++ ys ≡ xs ++ zs → ys ≡ zs
append_cancel [] ys zs e = e
append_cancel (x ∷ xs) ys zs e = append_cancel xs ys zs (ap (drop 1) e)

first_message :
    (n : ℕ) (extra : List ℕ) (inputs : List (Option (List ℕ)))
    → n < 100000000000000000000
    → client_loop true (some (size_line n ++ extra) ∷ inputs) connected
      ≡ client_loop true inputs (receiving n 0 (behind (size_line n ++ extra)) [])
unfolding client_loop handle_server_data check_completed
first_message n extra inputs small =
    ap (λ h. check_completed h (client_loop true inputs)) (size_response n extra small)

first_line :
    (n : ℕ) (inputs : List (Option (List ℕ)))
    → n < 100000000000000000000
    → client_loop true (some (size_line n) ∷ inputs) connected
      ≡ client_loop true inputs (receiving n 0 0 [])
first_line n inputs small =
    let alone : size_line n ++ [] ≡ size_line n = append-nil (size_line n) in
    ap (λ l. client_loop true (some l ∷ inputs) connected) (sym alone)
    ∙ first_message n [] inputs small
    ∙ ap (λ o. client_loop true inputs (receiving n 0 o [])) (ap behind alone ∙ line_fits n)

-- A client asks for a file of the directory by a valid name, and receives what the server sends in
-- pieces of any sizes, of which the first is the line with the size and the others, at least one, are
-- not empty: it completes with the bytes of the file, all of them and in order.
pub download :
    (env : Env) (fd k : ℕ) (priority : Option ℕ) (cookie name content p : List ℕ)
    (ps : List (List ℕ))
    → IsString name
    → validate_filename name ≡ true
    → env.content (filepath name) ≡ some content
    → env.stats ≡ true
    → length content ≤ buffer_size * k
    → length content < 100000000000000000000
    → IsCut (p ∷ ps)
    → joined (size_line (length content) ∷ p ∷ ps) ≡ answer env fd k priority cookie name
    → client_loop true (map some (size_line (length content) ∷ p ∷ ps)) connected
      ≡ completed (received (length content) (length content) 0 content)
download env fd k priority cookie name content p ps string valid there stats fits small cut cuts =
    let line = size_line (length content) in
    let all : joined (p ∷ ps) ≡ content =
      append_cancel line (joined (p ∷ ps)) content
        (cuts ∙ answer_lem env fd k priority cookie name content string valid there stats fits) in
    first_line (length content) (map some (p ∷ ps)) small
    ∙ pieces_complete (length content) 0 0 [] p ps cut.1 (omega (arith, ap length all))
    ∙ ap (λ l. completed (received (length content) (length content) 0 l)) all

-- The same when bytes of the file arrive together with the line: the client drops them, and waits for
-- more when everything has arrived.
pub coalesced_stalls :
    (env : Env) (fd k : ℕ) (priority : Option ℕ) (cookie name content extra : List ℕ)
    (ps : List (List ℕ))
    → IsString name
    → validate_filename name ≡ true
    → env.content (filepath name) ≡ some content
    → env.stats ≡ true
    → length content ≤ buffer_size * k
    → length content < 100000000000000000000
    → 0 < length extra
    → joined ((size_line (length content) ++ extra) ∷ ps) ≡ answer env fd k priority cookie name
    → client_loop true (map some ((size_line (length content) ++ extra) ∷ ps)) connected
      ≡ waiting (
          receiving
            (length content)
            (length (joined ps))
            (behind (size_line (length content) ++ extra))
            (joined ps))
coalesced_stalls env fd k priority cookie name content extra ps string valid there stats fits small
      more cuts =
    let line = size_line (length content) in
    let o = behind (line ++ extra) in
    let all : extra ++ joined ps ≡ content = append_cancel line (extra ++ joined ps) content (
      sym (append_assoc line extra (joined ps))
      ∙ cuts
      ∙ answer_lem env fd k priority cookie name content string valid there stats fits) in
    let short : 0 + length (joined ps) < length content =
      omega (arith, ap length all, length-append extra (joined ps), more) in
    let count : 0 + length (joined ps) ≡ length (joined ps) = omega arith in
    first_message (length content) extra (map some ps) small
    ∙ pieces_wait (length content) 0 o [] ps short
    ∙ ap (λ r. waiting (receiving (length content) r o (joined ps))) count
