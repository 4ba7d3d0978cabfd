-- ===== src/Pftp/Server.antt =====
-- chapter_61/pftp_server.c. A descriptor is a number, `none` is -1; an open file is its path and what
-- is left to read. A send() sends all of its bytes.
use tlpi_solutions.Common.{
  ℕ, Bool, Option, none, some, List, [], ◌∷◌, ◌++◌, ◌==◌, not, if◌then◌else◌, length, take, drop,
  print_number, bytes_eq,
}
use tlpi_solutions.Pftp.{
  buffer_size, files_dir, cmd_connect, cmd_transfer, cmd_cookie, cmd_reset, resp_size, msg_ok,
  msg_reset_cancelled, msg_reset_ok, err_cannot_establish_priority, err_invalid_filename,
  err_file_not_found, err_cannot_determine_size, slash, newline, c_string, has_prefix,
  validate_filename, parse_connect_command, port_of,
}

pub record File : Type 0 where
  pub path : List ℕ
  pub rest : List ℕ

pub record Server : Type 0 where
  pub normal_fd : Option ℕ
  pub priority_fd : Option ℕ
  pub cookie : List ℕ
  pub transfer_file : Option File

-- What the program asks of the kernel.
pub data Effect : Type 0 where
  closes connects : ℕ → Effect
  sends : ℕ → List ℕ → Effect
  fopens fcloses : List ℕ → Effect

-- What the calls give: the descriptors of accept() and socket(), whether connect() succeeds, the
-- content that fopen() of a path finds, and whether stat() of it succeeds.
pub record Env : Type 0 where
  pub accepted : Option ℕ
  pub socket : Option ℕ
  pub connected : Bool
  pub content : List ℕ → Option (List ℕ)
  pub stats : Bool

abbrev pub close_any : Option ℕ → List Effect
close_any none = []
close_any (some fd) = closes fd ∷ []

abbrev pub fclose_any : Option File → List Effect
fclose_any none = []
fclose_any (some f) = fcloses f.path ∷ []

-- A send() on -1 fails.
abbrev pub send_any : Option ℕ → List ℕ → List Effect
send_any none bytes = []
send_any (some fd) bytes = sends fd bytes ∷ []

unfoldable pub handle_new_connection : Env → Server → Server × List Effect
handle_new_connection env s = elim s.normal_fd [
  | none ↦ (record s { normal_fd = env.accepted }, [])
  | some fd ↦ (s, close_any env.accepted)
]

-- handle_connect_command() where no connection comes about
unfoldable pub refuse_connect : Env → ℕ → ℕ → Server → Server × List Effect
refuse_connect env fd port s = (
  record s { priority_fd = none },
  connects port ∷ (close_any env.socket ++ sends fd err_cannot_establish_priority ∷ []),
)

-- handle_connect_command(), called with the descriptor `fd` in normal_fd
unfoldable pub handle_connect_command : Env → ℕ → List ℕ → Server → Server × List Effect
unfolding parse_connect_command port_of refuse_connect
handle_connect_command env fd buffer s = elim (parse_connect_command buffer) [
  | none ↦ (s, [])
  | some (cookie, port_str) ↦
      let s1 = record s { cookie = cookie; priority_fd = env.socket } in
      let port = port_of port_str in
      elim env.socket [
        | none ↦ refuse_connect env fd port s1
        | some priority ↦
            if env.connected
            then (
              s1,
              connects port
                  ∷ sends priority (cmd_cookie ++ (cookie ++ newline ∷ []))
                  ∷ sends fd msg_ok
                  ∷ [],
            )
            else refuse_connect env fd port s1
      ]
]

abbrev pub filepath : List ℕ → List ℕ
filepath filename = files_dir ++ slash ∷ filename

-- The line that announces a file of `n` bytes.
unfoldable pub size_line : ℕ → List ℕ
size_line n = resp_size ++ print_number n (newline ∷ [])

unfoldable pub handle_transfer_command : Env → ℕ → List ℕ → Server → Server × List Effect
unfolding validate_filename size_line
handle_transfer_command env fd filename s =
    let path = filepath filename in
    if not (validate_filename filename)
    then (s, sends fd err_invalid_filename ∷ [])
    else elim (env.content path) [
      | none ↦ (record s { transfer_file = none }, sends fd err_file_not_found ∷ [])
      | some content ↦
          if env.stats
          then (
            record s { transfer_file = some (record { path = path; rest = content }) },
            fopens path ∷ sends fd (size_line (length content)) ∷ [],
          )
          else (
            record s { transfer_file = none },
            fopens path ∷ fcloses path ∷ sends fd err_cannot_determine_size ∷ [],
          )
    ]

-- The string in the buffer after a recv(): without the newline at the end of what has come.
unfoldable pub without_newline : List ℕ → List ℕ
without_newline [] = []
without_newline (c ∷ []) = if c == newline then [] else c ∷ []
without_newline (c ∷ d ∷ cs) = c ∷ without_newline (d ∷ cs)

unfoldable pub received_string : List ℕ → List ℕ
unfolding c_string without_newline
received_string bytes = c_string (without_newline bytes)

-- handle_normal_data() on the descriptor `fd`; `none` is a recv() that gives 0 or -1.
unfoldable pub handle_normal_data : Env → ℕ → Option (List ℕ) → Server → Server × List Effect
unfolding received_string has_prefix handle_connect_command handle_transfer_command
handle_normal_data env fd none s = (
  record s { normal_fd = none; priority_fd = none; transfer_file = none },
  closes fd ∷ (close_any s.priority_fd ++ fclose_any s.transfer_file),
)
handle_normal_data env fd (some bytes) s =
    let buffer = received_string bytes in
    if has_prefix cmd_connect buffer
    then handle_connect_command env fd buffer s
    else if has_prefix cmd_transfer buffer
    then handle_transfer_command env fd (drop (length cmd_transfer) buffer) s
    else (s, [])

-- The end of the transfer by a RESET.
unfoldable pub reset_transfer : ℕ → Server → Server × List Effect
reset_transfer priority s = elim s.transfer_file [
  | none ↦ (s, [])
  | some f ↦ (
    record s { transfer_file = none },
    fcloses f.path ∷ (send_any s.normal_fd msg_reset_cancelled ++ sends priority msg_reset_ok ∷ []),
  )
]

unfoldable pub handle_priority_data : ℕ → Option (List ℕ) → Server → Server × List Effect
unfolding received_string reset_transfer
handle_priority_data priority none s = (record s { priority_fd = none }, closes priority ∷ [])
handle_priority_data priority (some bytes) s =
    if bytes_eq (received_string bytes) cmd_reset then reset_transfer priority s else (s, [])

-- continue_file_transfer() of the open file `f`
unfoldable pub continue_file_transfer : File → Server → Server × List Effect
continue_file_transfer f s =
    if length f.rest == 0 then (record s { transfer_file = none }, fcloses f.path ∷ []) else (
      record s { transfer_file = some (record { path = f.path; rest = drop buffer_size f.rest }) },
      send_any s.normal_fd (take buffer_size f.rest),
    )

-- What select() and the recv() calls behind it give: whether the listening socket is ready, which
-- other descriptors are, and the bytes on the two connections.
pub record Inputs : Type 0 where
  pub env : Env
  pub server_ready : Bool
  pub ready : ℕ → Bool
  pub on_normal : Option (List ℕ)
  pub on_priority : Option (List ℕ)

-- Two handlers, one after the other.
abbrev pub then_do : Server × List Effect → (Server → Server × List Effect) → Server × List Effect
then_do (s, effects) next = let (s', effects') = next s in (s', effects ++ effects')

unfoldable pub normal_round : Inputs → Server → Server × List Effect
unfolding handle_normal_data
normal_round i s = elim s.normal_fd [
  | none ↦ (s, [])
  | some fd ↦ if i.ready fd then handle_normal_data i.env fd i.on_normal s else (s, [])
]

unfoldable pub priority_round : Inputs → Server → Server × List Effect
unfolding handle_priority_data
priority_round i s = elim s.priority_fd [
  | none ↦ (s, [])
  | some fd ↦ if i.ready fd then handle_priority_data fd i.on_priority s else (s, [])
]

-- A round of the loop of main() in which a descriptor is ready.
unfoldable pub ready_round : Inputs → Server → Server × List Effect
unfolding handle_new_connection normal_round priority_round
ready_round i s =
    then_do
      (then_do (if i.server_ready then handle_new_connection i.env s else (s, [])) (normal_round i))
      (priority_round i)

-- A round in which none is, which takes place while a file is transferred.
unfoldable pub idle_round : Server → Server × List Effect
unfolding continue_file_transfer
idle_round s = elim s.transfer_file [ none ↦ (s, []) | some f ↦ continue_file_transfer f s ]

-- The rounds of main().
pub data Round : Type 0 where
  active : Inputs → Round
  idle : Round

unfoldable pub round : Round → Server → Server × List Effect
unfolding ready_round idle_round
round (active i) s = ready_round i s
round idle s = idle_round s

unfoldable pub run : List Round → Server → Server × List Effect
unfolding round
run [] s = (s, [])
run (r ∷ rs) s = then_do (round r s) (run rs)

abbrev pub start : Server
start = record { normal_fd = none; priority_fd = none; cookie = []; transfer_file = none }
