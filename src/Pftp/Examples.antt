-- ===== src/Pftp/Examples.antt =====
-- The theorems about chapter_61/pftp_server.c and pftp_client.c at a file "a" of two bytes.
use tlpi_solutions.Common.{
  ℕ, ◌≡◌, ◌≢◌, ◌⊎◌, inl, inr, ◌∙◌, refl, sym, true, false, none, some, List, [], ◌∷◌, ◌++◌, map,
  if◌then◌else◌, bytes_eq, codes, arith, IsString, print_number,
}
use tlpi_solutions.Pftp.{newline, cmd_transfer, validate_filename}
use tlpi_solutions.Pftp.Server.{Env, Round, active, idle, start, round, run, filepath, size_line}
use tlpi_solutions.Pftp.Inside.{OpensInside, run-OpensInside}
use tlpi_solutions.Pftp.Files.{opened_paths, closed_paths, held, asks, OneAtATime, run-closes}
use tlpi_solutions.Pftp.Client.{connected, waiting, completed, client_loop}
use tlpi_solutions.Pftp.Pieces.{receiving, received, joined}
use tlpi_solutions.Pftp.Receive.{behind}
use tlpi_solutions.Pftp.Download.{answer, answer_lem, download, coalesced_stalls}

abbrev file_name : List ℕ
file_name = codes "a"

abbrev hi : List ℕ
hi = codes "hi"

abbrev one_file : Env
one_file = record {
  accepted = some 4;
  socket = some 5;
  connected = true;
  content = λ path. if bytes_eq path (filepath file_name) then some hi else none;
  stats = true;
}

-- A client connects; it sends a line.
abbrev connects_to : Round
connects_to = active (record {
  env = one_file;
  server_ready = true;
  ready = λ fd. false;
  on_normal = none;
  on_priority = none;
})

abbrev asks_for : List ℕ → Round
asks_for name = active (record {
  env = one_file;
  server_ready = false;
  ready = λ fd. true;
  on_normal = some ((cmd_transfer ++ name) ++ newline ∷ []);
  on_priority = none;
})

abbrev session : List Round
session = connects_to ∷ asks_for (codes "../a") ∷ asks_for file_name ∷ idle ∷ idle ∷ []

run-OpensInside_example : OpensInside (run session start).1
run-OpensInside_example = run-OpensInside session start

-- A client asks for a file and leaves after its first bytes; then another comes.
abbrev leaves : Round
leaves = active (record {
  env = one_file;
  server_ready = false;
  ready = λ fd. true;
  on_normal = none;
  on_priority = none;
})

abbrev left_early : List Round
left_early = connects_to ∷ asks_for file_name ∷ idle ∷ leaves ∷ connects_to ∷ []

left_early-OneAtATime : OneAtATime left_early start
unfolding OneAtATime asks round
left_early-OneAtATime = (inl refl, (inr refl, (inl refl, (inl refl, (inl refl, tt)))))

run-closes_example :
    (opened_paths (run left_early start).1
      ≡ closed_paths (run left_early start).1 ++ held (run left_early start).0.transfer_file)
    × (((run left_early start).0.normal_fd ≢ none)
        ⊎ (opened_paths (run left_early start).1 ≡ closed_paths (run left_early start).1))
run-closes_example = run-closes left_early left_early-OneAtATime

-- The file is opened once and closed once.
opened_paths-left_early : opened_paths (run left_early start).1 ≡ filepath file_name ∷ []
unfolding opened_paths run
opened_paths-left_early = refl

valid : validate_filename file_name ≡ true
unfolding validate_filename
valid = refl

file_name-IsString : IsString file_name
file_name-IsString = ((λ e. omega (arith, e)), tt)

answered : answer one_file 4 1 none [] file_name ≡ size_line 2 ++ hi
answered =
    answer_lem one_file 4 1 none [] file_name hi file_name-IsString valid refl refl (omega arith)

download_example :
    client_loop true (map some (size_line 2 ∷ codes "h" ∷ codes "i" ∷ [])) connected
    ≡ completed (received 2 2 0 hi)
download_example =
    download one_file 4 1 none [] file_name hi (codes "h") (codes "i" ∷ []) file_name-IsString valid
      refl refl (omega arith) (omega arith) (omega arith, (omega arith, tt)) (sym answered)

joined_line : joined ((size_line 2 ++ codes "h") ∷ codes "i" ∷ []) ≡ size_line 2 ++ hi
unfolding size_line print_number
joined_line = refl

coalesced_stalls_example :
    client_loop true (map some ((size_line 2 ++ codes "h") ∷ codes "i" ∷ [])) connected
    ≡ waiting (receiving 2 1 (behind (size_line 2 ++ codes "h")) (codes "i"))
coalesced_stalls_example =
    coalesced_stalls one_file 4 1 none [] file_name hi (codes "h") (codes "i" ∷ [])
      file_name-IsString valid refl refl (omega arith) (omega arith) (omega arith)
      (joined_line ∙ sym answered)

-- A line that arrives in two parts is the end.
two_parts :
    client_loop true (map some (codes "SI" ∷ codes "ZE:2\n" ∷ hi ∷ [])) connected
    ≡ completed connected
unfolding client_loop
two_parts = refl

-- An empty file never is.
empty_file : client_loop true (map some (size_line 0 ∷ [])) connected ≡ waiting (receiving 0 0 0 [])
unfolding client_loop size_line print_number
empty_file = refl
