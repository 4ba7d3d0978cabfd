-- ===== src/Pftp/Receive.antt =====
-- What the programs of chapter_61/pftp_server.c and pftp_client.c read from each other.
use tlpi_solutions.Common.{
  ℕ, ◌<◌, ◌≡◌, refl, sym, ap, ◌∙◌, true, false, some, List, [], ◌∷◌, ◌++◌, ◌==◌, leb, if◌then◌else◌,
  arith, length, drop, IsString, is_digit, scan, print_number, scan-print_number,
  print_number-IsString, print_number_first, print_number-append, length-print_number, skip_spaces,
}
use tlpi_solutions.Pftp.{
  buffer_size, cmd_transfer, cmd_connect, resp_size, newline, c_string, has_prefix,
}
use tlpi_solutions.Pftp.Server.{
  Server, Env, size_line, handle_connect_command, handle_transfer_command, handle_normal_data,
  received_string, without_newline,
}
use tlpi_solutions.Pftp.Client.{connected, atol, goes_on, first_response}
use tlpi_solutions.Pftp.Pieces.{receiving}

c_string_lem : (s : List ℕ) → IsString s → c_string s ≡ s
unfolding c_string
c_string_lem [] w = refl
c_string_lem (c ∷ cs) w =
    let e : (c == 0) ≡ false = ground (arith, w.0) in rw (e, c_string_lem cs w.1) refl

without_newline_lem : (s : List ℕ) → without_newline (s ++ newline ∷ []) ≡ s
unfolding without_newline
without_newline_lem [] = refl
without_newline_lem (c ∷ []) = refl
without_newline_lem (c ∷ d ∷ cs) = ap (λ l. c ∷ l) (without_newline_lem (d ∷ cs))

-- A command line arrives as the string in front of its newline.
received_string_lem : (s : List ℕ) → IsString s → received_string (s ++ newline ∷ []) ≡ s
unfolding received_string
received_string_lem s w = ap c_string (without_newline_lem s) ∙ c_string_lem s w

append-IsString : (xs ys : List ℕ) → IsString xs → IsString ys → IsString (xs ++ ys)
append-IsString [] ys v w = w
append-IsString (x ∷ xs) ys v w = (v.0, append-IsString xs ys v.1 w)

c_string-append : (xs ys : List ℕ) → IsString xs → c_string (xs ++ ys) ≡ xs ++ c_string ys
unfolding c_string
c_string-append [] ys w = refl
c_string-append (x ∷ xs) ys w =
    let e : (x == 0) ≡ false = ground (arith, w.0) in rw (e, c_string-append xs ys w.1) refl

cmd_transfer-IsString : IsString cmd_transfer
cmd_transfer-IsString = (
  (λ e. omega (arith, e)),
  (
    (λ e. omega (arith, e)),
    (
      (λ e. omega (arith, e)),
      (
        (λ e. omega (arith, e)),
        (
          (λ e. omega (arith, e)),
          (
            (λ e. omega (arith, e)),
            ((λ e. omega (arith, e)), ((λ e. omega (arith, e)), ((λ e. omega (arith, e)), tt))),
          ),
        ),
      ),
    ),
  ),
)

taken :
    (env : Env) (fd : ℕ) (name bytes : List ℕ) (s : Server)
    → received_string bytes ≡ cmd_transfer ++ name
    → handle_normal_data env fd (some bytes) s ≡ handle_transfer_command env fd name s
unfolding handle_normal_data has_prefix
taken env fd name bytes s e =
    ap
      (λ buffer.
        if has_prefix cmd_connect buffer
        then handle_connect_command env fd buffer s
        else if has_prefix cmd_transfer buffer
        then handle_transfer_command env fd (drop (length cmd_transfer) buffer) s
        else (s, []))
      e

resp_size-IsString : IsString resp_size
resp_size-IsString = (
  (λ e. omega (arith, e)),
  (
    (λ e. omega (arith, e)),
    ((λ e. omega (arith, e)), ((λ e. omega (arith, e)), ((λ e. omega (arith, e)), tt))),
  ),
)

-- The server takes a TRANSFER line for a TRANSFER.
pub request_taken :
    (env : Env) (fd : ℕ) (name : List ℕ) (s : Server)
    → IsString name
    → handle_normal_data env fd (some ((cmd_transfer ++ name) ++ newline ∷ [])) s
      ≡ handle_transfer_command env fd name s
request_taken env fd name s w = taken env fd name ((cmd_transfer ++ name) ++ newline ∷ []) s (
    received_string_lem (cmd_transfer ++ name)
      (append-IsString cmd_transfer name cmd_transfer-IsString w))

has_prefix-append : (xs ys : List ℕ) → has_prefix xs (xs ++ ys) ≡ true
unfolding has_prefix
has_prefix-append [] ys = refl
has_prefix-append (x ∷ xs) ys =
    let self : (x == x) ≡ true = ground arith in rw self (has_prefix-append xs ys)

c_string-newline : (rest : List ℕ) → c_string (newline ∷ rest) ≡ newline ∷ c_string rest
unfolding c_string
c_string-newline rest = refl

-- What the client finds in its buffer: the line with the size, and what came behind it.
size_received :
    (n : ℕ) (extra : List ℕ)
    → c_string (size_line n ++ extra) ≡ resp_size ++ print_number n (newline ∷ c_string extra)
unfolding size_line
size_received n extra =
    let more : print_number n (newline ∷ []) ++ extra ≡ print_number n [] ++ newline ∷ extra =
      print_number-append n (newline ∷ []) extra
      ∙ sym (print_number-append n [] (newline ∷ extra)) in
    ap (λ l. c_string (resp_size ++ l)) more
    ∙ c_string-append resp_size (print_number n [] ++ newline ∷ extra) resp_size-IsString
    ∙ ap (λ l. resp_size ++ l)
        (c_string-append (print_number n []) (newline ∷ extra) (print_number-IsString n [] tt)
          ∙ ap (λ l. print_number n [] ++ l) (c_string-newline extra)
          ∙ print_number-append n [] (newline ∷ c_string extra))

atol_digit :
    (d : ℕ) (more : List ℕ) → is_digit d ≡ true → atol (skip_spaces (d ∷ more)) ≡ scan (d ∷ more) 0
unfolding atol skip_spaces
atol_digit d more digit = ground (arith, digit)

-- The client reads the size that the server prints.
atol-print_number :
    (n : ℕ) (rest : List ℕ)
    → n < 100000000000000000000
    → atol (skip_spaces (print_number n (newline ∷ rest))) ≡ n
atol-print_number n rest small =
    let (d, more, e, digit) = print_number_first n (newline ∷ rest) in
    ap (λ l. atol (skip_spaces l)) e
    ∙ atol_digit d more digit
    ∙ ap (λ l. scan l 0) (sym e)
    ∙ scan-print_number n (newline ∷ rest) small
    ∙ (unfold scan in refl)

-- How many bytes are stored behind the buffer by a message.
abbrev pub behind : List ℕ → ℕ
behind bytes = if leb buffer_size (length bytes) then 1 else 0

-- The line with the size fits in the buffer.
pub line_fits : (n : ℕ) → behind (size_line n) ≡ 0
unfolding size_line
line_fits n =
    let short : leb buffer_size (length (resp_size ++ print_number n (newline ∷ []))) ≡ false =
      ground (arith, length-print_number n (newline ∷ [])) in
    rw short refl

-- The first message starts with the size of the file: the rest of the message is dropped.
pub size_response :
    (n : ℕ) (extra : List ℕ)
    → n < 100000000000000000000
    → first_response true (size_line n ++ extra) connected
      ≡ goes_on (receiving n 0 (behind (size_line n ++ extra)) [])
unfolding first_response
size_response n extra small =
    rw
      (
        size_received n extra,
        has_prefix-append resp_size (print_number n (newline ∷ c_string extra)),
        atol-print_number n (c_string extra) small,
      )
      (ap (λ o. goes_on (receiving n 0 o [])) (omega arith))
